-- ===== src/Tracking/Visitor.antt =====
-- `generateVisitorId`, `getVisitorId` and `getReferralCode` of web/packages/tracking/src/widget.ts.
-- `random k` is the k-th `(Math.random() * 16) | 0`. A result is none where the cookie's value makes
-- `decodeURIComponent` throw.
pub mod Laws
use indica_ai.Prelude.{
  ℕ, Bool, zero, suc, ◌+◌, ◌%◌, ◌||◌, Option, none, some, List, [], ◌∷◌, Text, codes, ltb, ◌==◌,
  if◌then◌else◌,
}
use indica_ai.Js.Strings.{split, is_empty}
use indica_ai.Tracking.Cookies.{
  Jar, Cookie, absent, malformed, found, cookie_name, get_cookie, set_cookie,
}

-- The cookies, whether the page is one where the browser takes a `Secure` cookie, and how many random
-- numbers were drawn.
pub record World : Type 0 where
  pub secure : Bool
  pub jar : Jar
  pub draws : ℕ

abbrev pub template : Text
template = codes "xxxxxxxx-xxxx-4xxx-yxxx-xxxxxxxxxxxx"

-- `v.toString(16)` of one digit.
abbrev pub hex_digit : ℕ → ℕ
hex_digit v = if ltb v 10 then 48 + v else 87 + v

-- `(r & 0x3) | 0x8`, of a number below 16.
abbrev variant : ℕ → ℕ
variant r = r % 4 + 8

-- `parts[0]` and `parts[1]`; none is `undefined`.
abbrev pub part : List Text → ℕ → Option Text
part [] i = none
part (p ∷ ps) zero = some p
part (p ∷ ps) (suc i) = part ps i

module _ (random : ℕ → ℕ) where
  -- The replacement of each `x` and `y`, with the draws so far.
  unfoldable pub fill : Text → ℕ → Text × ℕ
  fill [] k = ([], k)
  fill (c ∷ t) k =
      let drawn = c == b'x' || c == b'y' in
      let (rest, k') = fill t (if drawn then k + 1 else k) in
      let unit =
        if c == b'x'
        then hex_digit (random k)
        else if c == b'y'
        then hex_digit (variant (random k))
        else c in
      (unit ∷ rest, k')

  unfoldable pub generate_visitor_id : World → Text × World
  generate_visitor_id w = let (id, k) = fill template w.draws in (id, record w { draws = k })

  -- No cookie: a new id is stored and returned.
  new_visitor : World → Option (Text × World)
  new_visitor w =
      let (id, w') = generate_visitor_id w in
      some (id, record w' { jar = set_cookie w'.secure cookie_name id w'.jar })

  -- `parts[0] || generateVisitorId()`.
  known_visitor : Option Text → World → Option (Text × World)
  known_visitor none w = some (generate_visitor_id w)
  known_visitor (some p) w = if is_empty p then some (generate_visitor_id w) else some (p, w)

  unfoldable pub get_visitor_id : World → Option (Text × World)
  unfolding known_visitor new_visitor
  get_visitor_id w = elim (get_cookie cookie_name w.jar) [
    | absent ↦ new_visitor w
    | malformed ↦ none
    | found v ↦ if is_empty v then new_visitor w else known_visitor (part (split b':' v) 0) w
  ]

-- `parts[1] || null`.
abbrev slug_of : Option Text → Option Text
slug_of none = none
slug_of (some p) = if is_empty p then none else some p

code_of_cookie : Cookie → Option (Option Text)
code_of_cookie absent = some none
code_of_cookie malformed = none
code_of_cookie (found v) = if is_empty v then some none else some (slug_of (part (split b':' v) 1))

code_from_cookie : Jar → Option (Option Text)
unfolding code_of_cookie
code_from_cookie jar = code_of_cookie (get_cookie cookie_name jar)

-- `ref` is `urlParams.get("ref")`, which the browser reads in the page's URL.
unfoldable pub get_referral_code : Option Text → Jar → Option (Option Text)
unfolding code_from_cookie
get_referral_code none jar = code_from_cookie jar
get_referral_code (some r) jar = if is_empty r then code_from_cookie jar else some (some r)
