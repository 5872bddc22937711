-- ===== src/Partner/Guard.antt =====
-- `AuthGuard` of web/apps/partner/app/components/auth-guard.tsx, beside that of the dashboard.
use indica_ai.Prelude.{
  ◌≡◌, refl, Bool, true, false, Option, none, some, String, if◌then◌else◌, Bool-cases, inl, inr,
}
use indica_ai.Http.{Result, resolved, rejected, get_status}
use indica_ai.Dashboard.Guard as DashboardGuard
use indica_ai.Dashboard.Guard.{shows_children, is_unauthorized}

-- `replaced` is where the router was sent.
pub record State : Type 0 where
  pub ready : Bool
  pub replaced : Option String

unfoldable pub opened : State
opened = record { ready = false; replaced = none }

unfoldable pub answered : {T : Type 0} → Result T → State → State
answered (resolved v) s = record s { ready = true }
answered (rejected e) s =
    if is_unauthorized (get_status e)
    then record s { replaced = some "/login" }
    else record s { ready = true }

-- For every outcome of its call, the guard of the partner's pages shows the page exactly when that
-- of the dashboard does, and sends the router to the same place.
pub answered_agrees :
    {T : Type 0} (r : Result T)
    → let s = answered r opened in
      let d = DashboardGuard.answered r DashboardGuard.opened in
      (s.ready ≡ shows_children d) × (s.replaced ≡ d.replaced)
unfolding answered opened DashboardGuard.answered DashboardGuard.opened shows_children
answered_agrees (resolved v) = (refl, refl)
answered_agrees (rejected e) = elim (Bool-cases (is_unauthorized (get_status e))) [
  | inl h ↦ rw h (refl, refl)
  | inr h ↦ rw h (refl, refl)
]
