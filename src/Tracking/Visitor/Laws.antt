-- ===== src/Tracking/Visitor/Laws.antt =====
-- Lemmas about `getVisitorId` and `getReferralCode` of web/packages/tracking/src/widget.ts.
use indica_ai.Prelude.{
  Option, ap, Bool, ◌∙◌, ℕ, ◌+◌, ◌<◌, ◌≤◌, ◌≡◌, ◌⊎◌, ◌||◌, refl, inl, inr, true, none, some, [],
  ◌∷◌, ◌++◌, Text, ◌==◌, if◌then◌else◌, all-All, Bool-cases, arith,
}
use indica_ai.Js.Strings.{split, Free, split-append, split_of_Free}
use indica_ai.Js.Uri.{is_unreserved}
use indica_ai.Tracking.Cookies.{
  Jar, absent, found, cookie_name, cookie_text, cookie_string, match_cookie, get_cookie, set_cookie,
}
use indica_ai.Tracking.Cookies.Laws.{IsPlainValue, Lacks, plain-Free, get_cookie-set_cookie}
use indica_ai.Tracking.Visitor.{
  World, template, hex_digit, variant, part, fill, generate_visitor_id, new_visitor, known_visitor,
  get_visitor_id, code_of_cookie, code_from_cookie, get_referral_code,
}

-- A lower-case hexadecimal digit.
abbrev pub IsHexDigit : ℕ → Type 0
IsHexDigit c = ((48 ≤ c) × (c ≤ 57)) ⊎ ((97 ≤ c) × (c ≤ 102))

-- A digit in 8, 9, a, b.
abbrev pub IsVariantDigit : ℕ → Type 0
IsVariantDigit c = ((56 ≤ c) × (c ≤ 57)) ⊎ ((97 ≤ c) × (c ≤ 98))

abbrev pub FitsUnit : ℕ → ℕ → Type 0
FitsUnit p c = if p == b'x' then IsHexDigit c else if p == b'y' then IsVariantDigit c else p ≡ c

-- Unit by unit, what a template allows.
abbrev pub Fits : Text → Text → Type 0
Fits [] [] = Unit
Fits [] (c ∷ t) = ⊥
Fits (p ∷ ps) [] = ⊥
Fits (p ∷ ps) (c ∷ t) = FitsUnit p c × Fits ps t

module _ (random : ℕ → ℕ) (below : (k : ℕ) → random k < 16) where
  fill-FitsUnit :
      (c k : ℕ)
      → FitsUnit c (
          if c == b'x'
          then hex_digit (random k)
          else if c == b'y'
          then hex_digit (variant (random k))
          else c)
  fill-FitsUnit c k = elim (Bool-cases (c == b'x')) [
    | inl x ↦ rw x (ground (arith, below k))
    | inr other ↦ elim (Bool-cases (c == b'y')) [
      | inl y ↦ rw (other, y) (ground arith)
      | inr plain ↦ rw (other, plain)
    ]
  ]

  fill-Fits : (t : Text) (k : ℕ) → Fits t (fill random t k).0
  unfolding fill
  fill-Fits [] k = tt
  fill-Fits (c ∷ t) k =
      (fill-FitsUnit c k, fill-Fits t (if c == b'x' || c == b'y' then k + 1 else k))

  -- Every generated id is a version 4 UUID in lower case.
  pub generate_visitor_id-Fits : (w : World) → Fits template (generate_visitor_id random w).0
  unfolding generate_visitor_id
  generate_visitor_id-Fits w = fill-Fits template w.draws

FitsUnit-plain : (p c : ℕ) → is_unreserved p ≡ true → FitsUnit p c → is_unreserved c ≡ true
FitsUnit-plain p c u h = elim (Bool-cases (p == b'x')) [
  | inl x ↦ hex_plain c (rw x at h)
  | inr other ↦ elim (Bool-cases (p == b'y')) [
    | inl y ↦ variant_plain c (rw (other, y) at h)
    | inr same ↦ rw (← (rw (other, same) at h)) u
  ]
]
  where
    hex_plain : (c : ℕ) → IsHexDigit c → is_unreserved c ≡ true
    hex_plain c h = ground arith

    variant_plain : (c : ℕ) → IsVariantDigit c → is_unreserved c ≡ true
    variant_plain c h = ground arith

Fits-plain : (ps t : Text) → IsPlainValue ps → Fits ps t → IsPlainValue t
Fits-plain [] [] u h = tt
Fits-plain [] (c ∷ t) u h = absurd h
Fits-plain (p ∷ ps) [] u h = tt
Fits-plain (p ∷ ps) (c ∷ t) (u, us) (k, h) = (FitsUnit-plain p c u k, Fits-plain ps t us h)

template-plain : IsPlainValue template
template-plain = all-All is_unreserved template refl

module _ (random : ℕ → ℕ) where
  get_visitor_id_found :
      (w : World) (c : ℕ) (v : Text)
      → IsPlainValue (c ∷ v)
      → get_cookie cookie_name w.jar ≡ found (c ∷ v)
      → get_visitor_id random w ≡ some (c ∷ v, w)
  unfolding get_visitor_id
  get_visitor_id_found w c v p h =
      rw (h, get_visitor_id)
        (rw (split_of_Free b':' (c ∷ v) (plain-Free b':' (c ∷ v) refl p), known_visitor))

  stored :
      (id : Text) (jar : Jar) (k : ℕ)
      → Fits template id
      → Lacks cookie_text jar
      → match_cookie cookie_name (cookie_string jar) ≡ none
      → let w : World = record {
        secure = true;
        jar = set_cookie true cookie_name id jar;
        draws = k;
      } in
        get_visitor_id random w ≡ some (id, w)
  stored [] jar k f l h = absurd f
  stored (c ∷ v) jar k f l h =
      let p : IsPlainValue (c ∷ v) = Fits-plain template (c ∷ v) template-plain f in
      get_visitor_id_found
        (record { secure = true; jar = set_cookie true cookie_name (c ∷ v) jar; draws = k }) c v p
        (get_cookie-set_cookie cookie_name jar c v p l h)

  absent_of_none :
      (jar : Jar)
      → match_cookie cookie_name (cookie_string jar) ≡ none
      → get_cookie cookie_name jar ≡ absent
  unfolding get_cookie
  absent_of_none jar h = rw (h, get_cookie)

  generate_visitor_id-jar : (w : World) → (generate_visitor_id random w).1.jar ≡ w.jar
  unfolding generate_visitor_id
  generate_visitor_id-jar w = refl

  generate_visitor_id-secure : (w : World) → (generate_visitor_id random w).1.secure ≡ w.secure
  unfolding generate_visitor_id
  generate_visitor_id-secure w = refl

  -- The first visit stores a new id.
  get_visitor_id_absent :
      (w : World)
      → get_cookie cookie_name w.jar ≡ absent
      → let g = generate_visitor_id random w in
        get_visitor_id random w
        ≡ some (g.0, record (g.1) { jar = set_cookie w.secure cookie_name g.0 w.jar })
  unfolding get_visitor_id
  get_visitor_id_absent w h =
      rw (h, get_visitor_id)
        (rw (generate_visitor_id-jar w, generate_visitor_id-secure w, new_visitor))

-- What a first visit returns and leaves, where the browser takes a `Secure` cookie or not.
abbrev stored_as : Text × World → (w : World) → Bool → Option (Text × World)
stored_as g w b =
    some (g.0, record { secure = b; jar = set_cookie b cookie_name g.0 w.jar; draws = g.1.draws })

-- On a page where the browser takes a `Secure` cookie, that has no cookie of the tracker and where
-- nothing in `document.cookie` matches its name, the first call of `getVisitorId` returns an id of
-- the form of a version 4 UUID and the next call returns the same id and changes nothing, for
-- random numbers below 16.
pub get_visitor_id_stable :
    (random : ℕ → ℕ) (w : World)
    → ((k : ℕ) → random k < 16)
    → w.secure ≡ true
    → Lacks cookie_text w.jar
    → match_cookie cookie_name (cookie_string w.jar) ≡ none
    → (id : Text) × (w' : World) × (get_visitor_id random w ≡ some (id, w'))
      × Fits template id
      × (get_visitor_id random w' ≡ some (id, w'))
unfolding generate_visitor_id
get_visitor_id_stable random w below secure lacks h =
    let g : Text × World = generate_visitor_id random w in
    let f : Fits template g.0 = generate_visitor_id-Fits random below w in
    (
      g.0,
      record { secure = true; jar = set_cookie true cookie_name g.0 w.jar; draws = g.1.draws },
      get_visitor_id_absent random w (absent_of_none random w.jar h) ∙ ap (stored_as g w) secure,
      f,
      stored random g.0 w.jar g.1.draws f lacks h,
    )

part_0 : (v rest : Text) → Free b':' v → part (split b':' (v ++ b':' ∷ rest)) 0 ≡ some v
part_0 v rest f = rw (split-append b':' v rest f)

part_1 :
    (v s rest : Text)
    → Free b':' v
    → Free b':' s
    → part (split b':' (v ++ b':' ∷ (s ++ b':' ∷ rest))) 1 ≡ some s
part_1 v s rest f g =
    rw (split-append b':' v (s ++ b':' ∷ rest) f) (rw (split-append b':' s rest g))

-- The cookie that the server issues, `visitor:slug:ts:hmac`, gives its visitor for the id, with
-- nothing stored or drawn, and its slug for the referral code where the URL has none.
pub server_cookie_parts :
    (random : ℕ → ℕ) (w : World) (c d : ℕ) (v s rest : Text)
    → Free b':' (c ∷ v)
    → Free b':' (d ∷ s)
    → get_cookie cookie_name w.jar ≡ found ((c ∷ v) ++ b':' ∷ ((d ∷ s) ++ b':' ∷ rest))
    → (get_visitor_id random w ≡ some (c ∷ v, w))
      × (get_referral_code none w.jar ≡ some (some (d ∷ s)))
unfolding get_visitor_id get_referral_code
server_cookie_parts random w c d v s rest f g h = (
  rw (h, get_visitor_id) (rw (part_0 (c ∷ v) ((d ∷ s) ++ b':' ∷ rest) f, known_visitor)),
  rw (h, code_from_cookie) (rw (part_1 (c ∷ v) (d ∷ s) rest f g, code_of_cookie)),
)
