-- ===== src/Dashboard/SignIn/Laws.antt =====
-- Lemmas about web/apps/dashboard/app/(auth)/login/page.tsx and register/page.tsx, on every outcome of
-- `fetch`.
use indica_ai.Prelude.{
  ◌≤◌, ◌≡◌, ◌↔◌, Bool, true, false, ◌&&◌, not, Option, none, some, String, Text, arith, Bool-cases,
  inl, inr, length,
}
use indica_ai.Http.{Json, unreadable, parsed, Outcome, unreachable, responded, is_ok}
use indica_ai.Dashboard.SignIn.{
  Register, State, dashboard_page, login_page, register_errors, submit, network_error, refused,
  logged_in, first_login, registered,
}

abbrev pub is_accepted : Outcome (Unit {0}) → Bool
is_accepted (unreachable m) = false
is_accepted (responded r) = is_ok r

-- An answer other than a success.
abbrev pub is_rejected : Outcome (Unit {0}) → Bool
is_rejected (unreachable m) = false
is_rejected (responded r) = not (is_ok r)

-- Where the page is sent, by the outcome of the two requests.
abbrev Goes : State → Bool → Bool → Type 0
Goes s home login =
    ((s.target ≡ some dashboard_page) ↔ (home ≡ true))
    × ((s.target ≡ some login_page) ↔ (login ≡ true))
    × ((s.is_loading ≡ false) ↔ (s.target ≡ none))

refused-Goes :
    (title fallback : String) (f : Json (Option String)) (s : State)
    → s.target ≡ none
    → Goes (refused title fallback f s) false false
unfolding refused
refused-Goes t d (unreadable m) s h = ground arith
refused-Goes t d (parsed none) s h = ground arith
refused-Goes t d (parsed (some none)) s h = ground arith
refused-Goes t d (parsed (some (some e))) s h = ground arith

network_error-Goes : (s : State) → s.target ≡ none → Goes (network_error s) false false
unfolding network_error
network_error-Goes s h = ground arith

first_login-Goes :
    (o : Outcome (Unit {0})) (s : State)
    → s.target ≡ none
    → s.is_loading ≡ true
    → Goes (first_login o s) (is_accepted o) (is_rejected o)
unfolding first_login
first_login-Goes (unreachable m) s h k = network_error-Goes s h
first_login-Goes (responded r) s h k = elim (Bool-cases (is_ok r)) [
  | inl e ↦ rw e (ground arith)
  | inr e ↦ rw e (ground arith)
]

registered-Goes :
    (o p : Outcome (Unit {0})) (s : State)
    → s.target ≡ none
    → s.is_loading ≡ true
    → Goes (registered o p s) (is_accepted o && is_accepted p) (is_accepted o && is_rejected p)
unfolding registered
registered-Goes (unreachable m) p s h k = network_error-Goes s h
registered-Goes (responded r) p s h k = elim (Bool-cases (is_ok r)) [
  | inl e ↦ rw e (first_login-Goes p s h k)
  | inr e ↦ rw e (refused-Goes _ _ r.failure s h)
]

-- While a registration loads and is sent nowhere yet, after its requests it goes to the dashboard
-- exactly when both are accepted, to the login page exactly when the account is made and the login
-- is answered with a refusal, and its button is enabled again exactly when it goes nowhere.
pub registered-target :
    (o p : Outcome (Unit {0})) (s : State)
    → s.target ≡ none
    → s.is_loading ≡ true
    → let t = registered o p s in
      ((t.target ≡ some dashboard_page) ↔ ((is_accepted o && is_accepted p) ≡ true))
      × ((t.target ≡ some login_page) ↔ ((is_accepted o && is_rejected p) ≡ true))
      × ((t.is_loading ≡ false) ↔ (t.target ≡ none))
registered-target o p s h k = registered-Goes o p s h k

-- A login that loads goes to the dashboard exactly when it is accepted, and enables its button otherwise.
pub logged_in-target :
    (o : Outcome (Unit {0})) (s : State)
    → s.target ≡ none
    → s.is_loading ≡ true
    → let t = logged_in o s in
      ((t.target ≡ some dashboard_page) ↔ (is_accepted o ≡ true))
      × ((t.is_loading ≡ false) ↔ (is_accepted o ≡ false))
unfolding logged_in
logged_in-target (unreachable m) s h k = ground (arith, network_error-Goes s h)
logged_in-target (responded r) s h k = elim (Bool-cases (is_ok r)) [
  | inl e ↦ rw e (ground arith)
  | inr e ↦
      rw e (ground (arith, refused-Goes "Erro ao entrar" "Credenciais inválidas" r.failure s h))
]

-- The registration form sends its request exactly when the name has at least two characters, the
-- address passes zod's test of e-mail addresses, which is an argument, and the password has at
-- least eight.
pub submit-register :
    {B : Type 0} (is_email : Text → Bool) (f : Register) (b : B) (s : State)
    → ((submit (register_errors is_email f) b s).1 ≡ some b)
      ↔ ((2 ≤ length f.nome) × (is_email f.email ≡ true) × (8 ≤ length f.senha))
unfolding submit register_errors
submit-register is_email f b s = ground arith
