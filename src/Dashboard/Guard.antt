-- ===== src/Dashboard/Guard.antt =====
-- `AuthGuard` of web/apps/dashboard/app/components/auth-guard.tsx: its state, the answer of `authApi.me()`,
-- and whether it shows the page.
pub mod Laws
use indica_ai.Prelude.{
  ℕ, Bool, true, false, Option, none, some, String, ◌==◌, if◌then◌else◌, is_some,
}
use indica_ai.Http.{Thrown, get_status, Result, resolved, rejected}

-- `replaced` is where the router was sent.
pub record State : Type 0 where
  pub authenticated : Option Bool
  pub replaced : Option String

unfoldable pub opened : State
opened = record { authenticated = none; replaced = none }

-- `e.status === 401`.
abbrev pub is_unauthorized : Option ℕ → Bool
is_unauthorized none = false
is_unauthorized (some s) = s == 401

unfoldable pub answered : {T : Type 0} → Result T → State → State
answered (resolved v) s = record s { authenticated = some true }
answered (rejected e) s =
    if is_unauthorized (get_status e)
    then record s { replaced = some "/login" }
    else record s { authenticated = some true }

-- The page below is shown unless `authenticated === null`.
unfoldable pub shows_children : State → Bool
shows_children s = is_some s.authenticated
