-- ===== src/Partner/Verify.antt =====
-- The page that a magic link leads to, web/apps/partner/app/(auth)/verify/page.tsx: the effect of
-- `VerifyContent` and the answer to its request.
use indica_ai.Prelude.{
  ◌≡◌, ◌↔◌, refl, Bool, true, false, ◌&&◌, Option, none, some, String, str_eq, if◌then◌else◌,
  is_some, arith, Bool-cases, inl, inr,
}
use indica_ai.Http.{Call, Result, resolved, rejected, get_message, or_else}
use indica_ai.Partner.Api.{AccessToken, Field, verify_magic_link}

-- `replaced` once `router.replace("/parceiro")` was called.
pub record State : Type 0 where
  pub error : Option String
  pub replaced : Bool

unfoldable pub opened : State
opened = record { error = none; replaced = false }

abbrev missing : State → State × Option (Call Field AccessToken)
missing s = (record s { error = some "Token ausente. Solicite um novo link." }, none)

-- The effect, with the parameter `token` of the URL.
unfoldable pub start : Option String → State → State × Option (Call Field AccessToken)
unfolding verify_magic_link
start none s = missing s
start (some t) s = if str_eq t "" then missing s else (s, some (verify_magic_link t))

unfoldable pub verified : Result AccessToken → State → State
verified (resolved v) s = record s { replaced = true }
verified (rejected e) s = record s {
  error = some (or_else (get_message e) "Link inválido ou expirado.");
}

-- What the page says: the error if it has a text, or that it is confirming.
unfoldable pub shown_error : State → Option String
shown_error s = elim s.error [ none ↦ none | some m ↦ if str_eq m "" then none else some m ]

-- Where the page ends: the answer counts only where a request was made.
abbrev end_with : State × Option (Call Field AccessToken) → Result AccessToken → State
end_with (s, none) r = s
end_with (s, some call) r = verified r s

unfoldable pub ended : Option String → Result AccessToken → State
unfolding opened start verified
ended token r = end_with (start token opened) r

abbrev pub is_resolved : Result AccessToken → Bool
is_resolved (resolved v) = true
is_resolved (rejected e) = false

abbrev pub is_given : Option String → Bool
is_given none = false
is_given (some t) = if str_eq t "" then false else true

abbrev Ends : State → Bool → Type 0
Ends s b =
    ((s.replaced ≡ true) ↔ (b ≡ true)) × ((s.replaced ≡ false) ↔ (is_some (shown_error s) ≡ true))

verified-Ends : (r : Result AccessToken) → Ends (verified r opened) (is_resolved r)
unfolding verified opened shown_error
verified-Ends (resolved v) = ground arith
verified-Ends (rejected e) = elim (Bool-cases (str_eq (get_message e) "")) [
  | inl h ↦ rw h (ground arith)
  | inr h ↦ rw (h, h) (ground arith)
]

ended_of_given :
    (t : String) (r : Result AccessToken)
    → str_eq t "" ≡ false
    → ended (some t) r ≡ verified r opened
unfolding ended start
ended_of_given t r h = rw (h, start) refl

ended_of_empty :
    (t : String) (r : Result AccessToken) → str_eq t "" ≡ true → ended (some t) r ≡ ended none r
unfolding ended start
ended_of_empty t r h = rw (h, start) refl

missing-Ends : (r : Result AccessToken) → Ends (ended none r) false
unfolding ended shown_error
missing-Ends r = ground arith

-- The page is left for the partner's exactly when a token was given and the call resolved; otherwise it
-- shows an error.
pub replaced-ended :
    (token : Option String) (r : Result AccessToken)
    → let s = ended token r in
      ((s.replaced ≡ true) ↔ ((is_given token && is_resolved r) ≡ true))
      × ((s.replaced ≡ false) ↔ (is_some (shown_error s) ≡ true))
replaced-ended none r = missing-Ends r
replaced-ended (some t) r = elim (Bool-cases (str_eq t "")) [
  | inl e ↦ rw (ended_of_empty t r e, e) (missing-Ends r)
  | inr e ↦ rw (ended_of_given t r e, e) (verified-Ends r)
]
