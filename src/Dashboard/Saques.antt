-- ===== src/Dashboard/Saques.antt =====
-- The payouts page, web/apps/dashboard/app/(app)/saques/page.tsx: its state, the totals and the rows
-- that it shows, its handlers cut at each `await`, and their interleavings.
pub mod Server
pub mod View
pub mod Laws
pub mod Traces
pub mod Races
pub mod Answers
use Prim.Native.String
use indica_ai.Prelude.{
  ℕ, ◌+◌, Bool, true, false, Option, none, some, List, [], ◌∷◌, ◌++◌, Text, String, str_eq, ltb,
  if◌then◌else◌, get_or,
}
use mathlib.Core.List.{Memᴰ}
use indica_ai.Js.Decimal.{show}
use indica_ai.Http.{Result, resolved, rejected, get_message, message_or}
use indica_ai.Toast
use indica_ai.Toast.{Options, Variant}
use indica_ai.Dashboard.Tasks.{Task, load, act}
use indica_ai.Dashboard.Api.Types.{Payout, PayoutStatus, PayoutsResponse}
use indica_ai.Dashboard.Api.Endpoints.{Fields}

-- The value of the status select: `"all"` or a status.
pub data Filter : Type 0 where
  all : Filter
  only : PayoutStatus → Filter

pub record State : Type 0 where
  pub payouts : List Payout
  pub loading : Bool
  pub error : Option String
  pub status_filter : Filter
  pub search : Text
  pub busy : Option String

-- What the handlers ask of the server once they have set `busy`.
pub data Action : Type 0 where
  create_job : Action
  confirm : (id : String) → Action
  mark_paid : (id : String) → (receipt : Option String) → Action
  cancel : (id : String) → (reason : Option String) → Action

-- The page, its requests in flight and the toasts that it showed, in order.
pub record World : Type 0 where
  pub page : State
  pub pending : List (Task Action)
  pub toasts : List Options

-- What `setBusy` is given.
abbrev pub key_of : Action → String
key_of create_job = "__create__"
key_of (confirm id) = id
key_of (mark_paid id receipt) = id
key_of (cancel id reason) = id

abbrev pub note : String → Option String → Variant → Options
note title description variant = record {
  title = some title;
  description = description;
  variant = some variant;
  duration = none;
}

abbrev say : Options → World → World
say o w = record w { toasts = w.toasts ++ o ∷ [] }

unfoldable pub reload : World → World
reload w = record w { page = record (w.page) { loading = true }; pending = w.pending ++ load ∷ [] }

-- The page as it is mounted: the initial state, and `reload` from the effect.
unfoldable pub mounted : World
unfolding reload
mounted = reload (record {
  page = record {
    payouts = [];
    loading = true;
    error = none;
    status_filter = all;
    search = [];
    busy = none;
  };
  pending = [];
  toasts = [];
})

-- The answer of `payoutsApi.list`; an answer of `undefined` makes the first `then` throw.
unfoldable pub loaded : (null_message : String) → Result PayoutsResponse → State → State
loaded null_message (resolved none) s = record s { error = some null_message; loading = false }
loaded null_message (resolved (some res)) s = record s {
  payouts = get_or res.payouts [];
  loading = false;
}
loaded null_message (rejected e) s = record s { error = some (get_message e); loading = false }

-- A handler up to its `await`.
unfoldable pub begin : Action → World → World
begin a w = record w {
  page = record (w.page) { busy = some (key_of a) };
  pending = w.pending ++ act a ∷ [];
}

-- `handleMarkPaid`: the prompt's answer, null included, is sent only if it is not empty.
abbrev pub receipt_of : Option String → Option String
receipt_of none = none
receipt_of (some url) = if str_eq url "" then none else some url

unfoldable pub handle_mark_paid : String → Option String → World → World
unfolding begin
handle_mark_paid id answer w = begin (mark_paid id (receipt_of answer)) w

-- `handleCancel`: a dismissed prompt ends it.
unfoldable pub handle_cancel : String → Option String → World → World
unfolding begin
handle_cancel id none w = w
handle_cancel id (some reason) w =
    begin (cancel id (if str_eq reason "" then none else some reason)) w

created_note : ℕ → Options
created_note n =
    note (if ltb 0 n then String.◌++◌ (show n) " saque(s) criado(s)" else "Nenhum saque elegível")
      (some (
        if ltb 0 n
        then "Comissões aprovadas dentro da janela de hold foram agrupadas."
        else "Sem comissões aprovadas além do prazo de hold neste momento."))
      Variant.success

success_note : Action → ℕ → Options
unfolding created_note
success_note create_job n = created_note n
success_note (confirm id) n =
    note "Saque confirmado" (some "Agora é só efetuar o Pix.") Variant.success
success_note (mark_paid id r) n = note "Saque marcado como pago" none Variant.success
success_note (cancel id r) n = note "Saque cancelado" none Variant.warning

abbrev pub failure_title : Action → String
failure_title create_job = "Falha ao criar saques"
failure_title (confirm id) = "Falha ao confirmar"
failure_title (mark_paid id r) = "Falha ao marcar como pago"
failure_title (cancel id r) = "Falha ao cancelar"

-- What a handler makes of its answer: done, with `res.created` where it is read, or an error's text.
-- `res.created` of `undefined` throws, which is no `ApiError`.
pub data Answer : Type 0 where
  done : ℕ → Answer
  failed : String → Answer

unfoldable pub answer_created : Result ℕ → Answer
answer_created (resolved (some n)) = done n
answer_created (resolved none) = failed "Erro inesperado"
answer_created (rejected e) = failed (message_or "Erro inesperado" e)

unfoldable pub answer_plain : Result Fields → Answer
answer_plain (resolved v) = done 0
answer_plain (rejected e) = failed (message_or "Erro inesperado" e)

-- The rest of a handler: a toast and, on success, `reload`; in the end `setBusy(null)`.
unfoldable pub finish : Action → Answer → World → World
unfolding success_note reload
finish a (done n) w =
    let w' = reload (say (success_note a n) w) in
    record w' { page = record (w'.page) { busy = none } }
finish a (failed message) w =
    let w' = say (note (failure_title a) (some message) Variant.destructive) w in
    record w' { page = record (w'.page) { busy = none } }
