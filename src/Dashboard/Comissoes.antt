-- ===== src/Dashboard/Comissoes.antt =====
-- The commissions page, web/apps/dashboard/app/(app)/comissoes/page.tsx: its state, and its handlers cut
-- at each `await`; the interleavings are in Traces.
pub mod View
pub mod Laws
pub mod Traces
use indica_ai.Prelude.{
  Bool, true, false, Option, none, some, List, [], ◌∷◌, ◌++◌, String, Text, str_eq, get_or,
  if◌then◌else◌,
}
use indica_ai.Http.{Call, Thrown, Result, resolved, rejected, get_message, message_or}
use indica_ai.Toast.{Options, Variant}
use indica_ai.Dashboard.Tasks.{Task, load, act}
use indica_ai.Dashboard.Api.Types.{Reward, RewardStatus, RewardSummary}
use indica_ai.Dashboard.Api.Endpoints.{Fields, rewards_approve, rewards_reject}

-- The value of the status select: `"all"` or a status.
pub data Filter : Type 0 where
  all : Filter
  only : RewardStatus → Filter

pub record State : Type 0 where
  pub rewards : List Reward
  pub summary : Option RewardSummary
  pub loading : Bool
  pub error : Option String
  pub status_filter : Filter
  pub search : Text
  pub busy : Option String

unfoldable pub opened : State
opened = record {
  rewards = [];
  summary = none;
  loading = true;
  error = none;
  status_filter = all;
  search = [];
  busy = none;
}

pub data Action : Type 0 where
  approve : (id : String) → Action
  reject : (id : String) → (reason : String) → Action

-- The page, its requests in flight and the toasts that it showed, in order.
pub record World : Type 0 where
  pub page : State
  pub pending : List (Task Action)
  pub toasts : List Options

-- `reload` up to its answer.
unfoldable pub reload : World → World
reload w = record w { page = record (w.page) { loading = true }; pending = w.pending ++ load ∷ [] }

-- The page as it is mounted: the initial state, and `reload` from the effect.
unfoldable pub mounted : World
unfolding opened reload
mounted = reload (record { page = opened; pending = []; toasts = [] })

-- `Promise.all`: both values, or the error of the one that is rejected first.
pub data Both : Type 0 where
  both : Option (List Reward) → Option RewardSummary → Both
  one_failed : Thrown → Both

abbrev pub join_results : (list_first : Bool) → Result (List Reward) → Result RewardSummary → Both
join_results first (resolved l) (resolved s) = both l s
join_results first (rejected e) (resolved s) = one_failed e
join_results first (resolved l) (rejected e) = one_failed e
join_results first (rejected e) (rejected f) = one_failed (if first then e else f)

-- The rest of `reload`.
unfoldable pub loaded : Both → State → State
loaded (both l sum) s = record s { rewards = get_or l []; summary = sum; loading = false }
loaded (one_failed e) s = record s { error = some (get_message e); loading = false }

abbrev pub key_of : Action → String
key_of (approve id) = id
key_of (reject id reason) = id

unfoldable pub call_of : Action → Call Fields Fields
call_of (approve id) = record {
  path = (rewards_approve id).path;
  method = (rewards_approve id).method;
  body = none;
}
call_of (reject id reason) = rewards_reject id reason

-- A handler up to its `await`.
unfoldable pub begin : Action → World → World
begin a w = record w {
  page = record (w.page) { busy = some (key_of a) };
  pending = w.pending ++ act a ∷ [];
}

-- `handleReject` ends where the prompt is dismissed or left empty.
unfoldable pub reject_of : String → (answer : Option String) → Option Action
reject_of id none = none
reject_of id (some reason) = if str_eq reason "" then none else some (reject id reason)

unfoldable pub handle_reject : String → Option String → World → World
unfolding begin reject_of
handle_reject id answer w = elim (reject_of id answer) [ none ↦ w | some a ↦ begin a w ]

abbrev note : String → Option String → Variant → Options
note title description variant = record {
  title = some title;
  description = description;
  variant = some variant;
  duration = none;
}

abbrev success_note : Action → Options
success_note (approve id) = note "Comissão aprovada" none Variant.success
success_note (reject id reason) = note "Comissão rejeitada" none Variant.warning

abbrev failure_title : Action → String
failure_title (approve id) = "Falha ao aprovar"
failure_title (reject id reason) = "Falha ao rejeitar"

abbrev say : Options → World → World
say o w = record w { toasts = w.toasts ++ o ∷ [] }

-- The rest of a handler: a toast and, on success, `reload`; in the end `setBusy(null)`.
unfoldable pub finish : Action → Result Fields → World → World
unfolding reload
finish a (resolved v) w =
    let w' = reload (say (success_note a) w) in
    record w' { page = record (w'.page) { busy = none } }
finish a (rejected e) w =
    let failure =
      note (failure_title a) (some (message_or "Erro inesperado" e)) Variant.destructive in
    let w' = say failure w in record w' { page = record (w'.page) { busy = none } }
