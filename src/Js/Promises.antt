-- ===== src/Js/Promises.antt =====
-- `Promise.all` of two calls.
use indica_ai.Prelude.{Bool, Option, if◌then◌else◌}
use indica_ai.Http.{Thrown, Result, resolved, rejected}

-- Both values, or the error of the call that is rejected first.
pub data Both (A B : Type 0) : Type 0 where
  both : Option A → Option B → Both A B
  one_failed : Thrown → Both A B

abbrev pub join_results : {A B : Type 0} → (left_first : Bool) → Result A → Result B → Both A B
join_results first (resolved l) (resolved r) = both l r
join_results first (rejected e) (resolved r) = one_failed e
join_results first (resolved l) (rejected e) = one_failed e
join_results first (rejected e) (rejected f) = one_failed (if first then e else f)
