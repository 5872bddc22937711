-- ===== src/Partner/Phone.antt =====
-- `normalizePhone` of web/apps/partner/app/(app)/parceiro/indicacoes/nova/page.tsx.
use indica_ai.Prelude.{
  ℕ, suc, ◌≡◌, ◌⊎◌, inl, inr, refl, ap, true, false, ◌||◌, [], ◌∷◌, ◌++◌, Text, codes, length,
  select, ◌==◌, if◌then◌else◌, All, arith, Bool-cases,
}
use indica_ai.Js.Strings.{is_digit}

-- `raw.replace(/\D/g, "")`.
unfoldable pub digits_of : Text → Text
digits_of t = select is_digit t

abbrev with_prefix : Text → Text
with_prefix [] = []
with_prefix (d ∷ ds) =
    if length (d ∷ ds) == 10 || length (d ∷ ds) == 11
    then codes "+55" ++ d ∷ ds
    else codes "+" ++ d ∷ ds

unfoldable pub normalize_phone : Text → Text
unfolding digits_of
normalize_phone raw = with_prefix (digits_of raw)

abbrev pub IsDigits : Text → Type 0
IsDigits = All (λ c. is_digit c ≡ true)

select-IsDigits : (t : Text) → IsDigits (digits_of t)
unfolding digits_of
select-IsDigits [] = tt
select-IsDigits (c ∷ t) = ground (arith, select-IsDigits t)

digits_of-IsDigits : (t : Text) → IsDigits t → digits_of t ≡ t
unfolding digits_of
digits_of-IsDigits [] h = refl
digits_of-IsDigits (c ∷ t) (h, hs) = rw (h, digits_of-IsDigits t hs) refl

-- Punctuation does not count: a number is normalised as its digits are.
pub normalize_phone-digits_of : (t : Text) → normalize_phone (digits_of t) ≡ normalize_phone t
unfolding normalize_phone
normalize_phone-digits_of t = ap with_prefix (digits_of-IsDigits (digits_of t) (select-IsDigits t))

shape :
    (ds : Text)
    → IsDigits ds
    → (with_prefix ds ≡ []) ⊎ ((es : Text) × (with_prefix ds ≡ b'+' ∷ es) × IsDigits es)
shape [] h = inl refl
shape (d ∷ ds) h = elim (Bool-cases (length (d ∷ ds) == 10 || length (d ∷ ds) == 11)) [
  | inl e ↦ inr (b'5' ∷ b'5' ∷ d ∷ ds, rw e refl, (refl, (refl, h)))
  | inr e ↦ inr (d ∷ ds, rw e refl, h)
]

-- The result is empty, or it is a plus sign and digits.
pub normalize_phone-IsDigits :
    (t : Text)
    → (normalize_phone t ≡ []) ⊎ ((es : Text) × (normalize_phone t ≡ b'+' ∷ es) × IsDigits es)
unfolding normalize_phone
normalize_phone-IsDigits t = shape (digits_of t) (select-IsDigits t)

-- Ten or eleven digits and two more are no ten or eleven.
longer :
    (n : ℕ)
    → (suc n == 10 || suc n == 11) ≡ true
    → (suc (suc (suc n)) == 10 || suc (suc (suc n)) == 11) ≡ false
longer n h = ground arith

prefix_again : (ds : Text) → IsDigits ds → with_prefix (digits_of (with_prefix ds)) ≡ with_prefix ds
unfolding digits_of
prefix_again [] h = refl
prefix_again (d ∷ ds) h = elim (Bool-cases (length (d ∷ ds) == 10 || length (d ∷ ds) == 11)) [
  | inl e ↦ rw (e, digits_of-IsDigits (d ∷ ds) h, longer (length ds) e) refl
  | inr e ↦ rw (e, digits_of-IsDigits (d ∷ ds) h, e) refl
]

-- Normalising a phone number twice is normalising it once.
pub normalize_phone_idempotent :
    (t : Text) → normalize_phone (normalize_phone t) ≡ normalize_phone t
unfolding normalize_phone
normalize_phone_idempotent t = prefix_again (digits_of t) (select-IsDigits t)
