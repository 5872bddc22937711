-- ===== src/Partner/Pix/Laws.antt =====
-- Lemmas about the check of a Pix key on web/apps/partner/app/(app)/parceiro/configuracoes/page.tsx and
-- at the back end.
use indica_ai.Prelude.{
  ℕ, zero, suc, ◌≡◌, ◌≢◌, ◌↔◌, refl, ap, subst, sym, ◌∙◌, inl, inr, Bool, true, false, none, [],
  ◌∷◌, ◌++◌, Text, length, All, arith, Bool-cases,
}
use indica_ai.Js.Strings.{is_digit, is_space, is_empty, trim}
use indica_ai.Js.Regex.{Regex, class, times, test, is_nullable, Matches}
use indica_ai.Js.Regex.Laws.{
  test_iff, Matches-within, IsWithin, within_class, within_empty, within_seq, within_star,
  within_again,
}
use indica_ai.Partner.Api.{PixKeyType, cpf, cnpj, email, phone, random}
use indica_ai.Partner.Pix.{
  pix_key_regex, server_regex, validate_pix_key, is_part, is_local, is_domain, is_letter, is_hex,
}

headed : {c d : ℕ} {t v : Text} → c ∷ t ≡ d ∷ v → c ≡ d
headed e = cc

-- `[...]{n}` describes the texts of n characters of the class.
times_iff :
    (p : ℕ → Bool) (n : ℕ) (t : Text)
    → Matches (times n (class p)) t ↔ ((length t ≡ n) × All (λ c. p c ≡ true) t)
times_iff p zero [] = ground arith
times_iff p zero (c ∷ t) = (λ e. cc, λ (e, h). ground arith)
times_iff p (suc n) [] = (λ (u, v, e, (c, eu, h), m). cc, λ (e, h). ground arith)
times_iff p (suc n) (c ∷ t) =
    let (there, back) = times_iff p n t in
    (
      λ (u, v, e, (d, eu, h), m).
          let split : c ∷ t ≡ d ∷ v = e ∙ ap (λ x. x ++ v) eu in
          let rest : v ≡ t = cc in
          let (measured, hs) = there (subst (Matches (times n (class p))) rest m) in
          (ap suc measured, ((ap p (headed split) ∙ h), hs)),
      λ (e, (h, hs)). (c ∷ [], t, refl, (c, refl, h), back (ground arith, hs)),
    )

through : {A B C : Type 0} → A ↔ B → B ↔ C → A ↔ C
through (ab, ba) (bc, cb) = (λ a. bc (ab a), λ c. ba (cb c))

refused_empty : (kind : PixKeyType) → test (pix_key_regex kind) [] ≡ false
unfolding test pix_key_regex is_nullable
refused_empty cpf = refl
refused_empty cnpj = refl
refused_empty email = refl
refused_empty phone = refl
refused_empty random = refl

empty_of : (t : Text) → is_empty t ≡ true → t ≡ []
empty_of [] h = refl
empty_of (c ∷ t) h = ground arith

validate_test :
    (key : Text) (kind : PixKeyType)
    → (validate_pix_key key kind ≡ none) ↔ (test (pix_key_regex kind) (trim key) ≡ true)
unfolding validate_pix_key
validate_test key kind = elim (Bool-cases (is_empty (trim key))) [
  | inl e ↦ rw (empty_of (trim key) e, refused_empty kind) (ground arith)
  | inr e ↦ rw e (ground arith)
]

-- The settings page accepts a key exactly when, less the white space around it, it is a text that
-- the regular expression of its kind describes.
validate_pix_key_iff :
    (key : Text) (kind : PixKeyType)
    → (validate_pix_key key kind ≡ none) ↔ Matches (pix_key_regex kind) (trim key)
validate_pix_key_iff key kind =
    let (a, b) = validate_test key kind in
    let (c, d) = test_iff (pix_key_regex kind) (trim key) in (λ h. c (a h), λ h. b (d h))

domain_part : (c : ℕ) → is_domain c ≡ true → is_part c ≡ true
unfolding is_space
domain_part c h = ground arith

local_part : (c : ℕ) → is_local c ≡ true → is_part c ≡ true
unfolding is_space
local_part c h = ground arith

letter_part : (c : ℕ) → is_letter c ≡ true → is_part c ≡ true
unfolding is_space
letter_part c h = ground arith

IsWithin-times : (n : ℕ) (r : Regex) → IsWithin r r → IsWithin (times n r) (times n r)
IsWithin-times zero r h = within_empty
IsWithin-times (suc n) r h = within_seq h (IsWithin-times n r h)

server_email : (t : Text) → Matches (server_regex email) t → Matches (pix_key_regex email) t
unfolding server_regex pix_key_regex
server_email t h =
    Matches-within
      (within_seq (within_seq (within_class local_part) (within_star (within_class local_part))) (
        within_seq (within_class (λ c e. e)) (
          within_seq
            (within_seq (within_class domain_part) (within_star (within_class domain_part)))
            (within_seq (within_class (λ c e. e)) (within_again (within_class letter_part))))))
      t h

agreed :
    (kind : PixKeyType)
    → kind ≢ email
    → (t : Text) → test (pix_key_regex kind) t ≡ test (server_regex kind) t
unfolding pix_key_regex server_regex
agreed cpf other t = refl
agreed cnpj other t = refl
agreed email other t = elim (other refl) [ ]
agreed phone other t = refl
agreed random other t = refl

-- A Pix key that, less the white space around it, matches the back end's expression of its kind
-- passes the check of the settings page.
pub validate_pix_key-server :
    (key : Text) (kind : PixKeyType)
    → test (server_regex kind) (trim key) ≡ true
    → validate_pix_key key kind ≡ none
validate_pix_key-server key cpf h = (validate_test key cpf).1 (agreed cpf (λ e. cc) (trim key) ∙ h)
validate_pix_key-server key cnpj h =
    (validate_test key cnpj).1 (agreed cnpj (λ e. cc) (trim key) ∙ h)
validate_pix_key-server key email h =
    (validate_pix_key_iff key email).1
      (server_email (trim key) ((test_iff (server_regex email) (trim key)).0 h))
validate_pix_key-server key phone h =
    (validate_test key phone).1 (agreed phone (λ e. cc) (trim key) ∙ h)
validate_pix_key-server key random h =
    (validate_test key random).1 (agreed random (λ e. cc) (trim key) ∙ h)

-- A Pix key of a kind other than e-mail that passes the check of the settings page matches, as it
-- is sent, the back end's expression of its kind.
pub server-validate_pix_key :
    (key : Text) (kind : PixKeyType)
    → kind ≢ email
    → validate_pix_key key kind ≡ none
    → test (server_regex kind) (trim key) ≡ true
server-validate_pix_key key kind other h =
    sym (agreed kind other (trim key)) ∙ (validate_test key kind).0 h

-- Less the white space around it, a key is accepted as a CPF exactly when it has eleven characters,
-- all digits, as a CNPJ exactly when it has fourteen, all digits, and as a random key exactly when
-- it has 32, all hexadecimal digits.
pub validate_pix_key-digits :
    (key : Text)
    → ((validate_pix_key key cpf ≡ none)
        ↔ ((length (trim key) ≡ 11) × All (λ c. is_digit c ≡ true) (trim key)))
      × (((validate_pix_key key cnpj ≡ none)
            ↔ ((length (trim key) ≡ 14) × All (λ c. is_digit c ≡ true) (trim key)))
          × ((validate_pix_key key random ≡ none)
              ↔ ((length (trim key) ≡ 32) × All (λ c. is_hex c ≡ true) (trim key))))
unfolding pix_key_regex
validate_pix_key-digits key = (
  through (validate_pix_key_iff key cpf) (times_iff is_digit 11 (trim key)),
  (
    through (validate_pix_key_iff key cnpj) (times_iff is_digit 14 (trim key)),
    through (validate_pix_key_iff key random) (times_iff is_hex 32 (trim key)),
  ),
)
