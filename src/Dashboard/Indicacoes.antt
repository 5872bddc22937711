-- ===== src/Dashboard/Indicacoes.antt =====
-- The page of leads, web/apps/dashboard/app/(app)/indicacoes/table.tsx and sheet.tsx: the state of the table,
-- that of the sheet while it is mounted, and the handlers cut at each `await`.
pub mod View
pub mod Tracked
pub mod Traces
pub mod Stuck
pub mod Races
use Prim.Native.String
use indica_ai.Prelude.{
  ℕ, suc, Bool, true, false, Option, none, some, List, [], ◌∷◌, ◌++◌, String, Text, str_eq, get_or,
  find, ◌==◌, if◌then◌else◌,
}
use indica_ai.Http.{Call, Result, resolved, rejected, get_message, message_or, or_else}
use indica_ai.Toast.{Options, Variant}
use indica_ai.Dashboard.Tasks.{Task, load, act}
use indica_ai.Dashboard.Words.{shows_error}
use indica_ai.Dashboard.Api.Types.{Lead, LeadStatus}
use indica_ai.Dashboard.Api.Endpoints.{Fields, lead_status, leads_list, leads_update_status}

-- The value of the status select: `"all"` or a status.
pub data Filter : Type 0 where
  all : Filter
  only : LeadStatus → Filter

pub record State : Type 0 where
  pub leads : List Lead
  pub loading : Bool
  pub error : Option String
  pub selected : Option Lead
  pub search : Text
  pub status_filter : Filter
  pub updating_id : Option String

unfoldable pub opened : State
opened = record {
  leads = [];
  loading = true;
  error = none;
  selected = none;
  search = [];
  status_filter = all;
  updating_id = none;
}

-- A mounted sheet: which mount it is, its `indicacao`, and its state.
pub record Sheet : Type 0 where
  pub number : ℕ
  pub lead : Lead
  pub status : LeadStatus
  pub saving : Bool

-- A request of a row's menu, and one of a sheet.
pub record Change : Type 0 where
  pub lead : Lead
  pub next : LeadStatus

pub record Save : Type 0 where
  pub number : ℕ
  pub id : String
  pub status : LeadStatus

-- The page, the sheet that it shows, how many were mounted so far, the requests in flight and the
-- toasts that were shown, in order.
pub record World : Type 0 where
  pub page : State
  pub sheet : Option Sheet
  pub mounts : ℕ
  pub pending : List (Task Change)
  pub saves : List Save
  pub toasts : List Options

-- The sheet is rendered behind the early returns for `loading` and `error`.
unfoldable pub visible : State → Option Lead
visible s = if s.loading then none else if shows_error s.error then none else s.selected

abbrev fresh : ℕ → Lead → Sheet
fresh n lead = record { number = n; lead = lead; status = lead.status; saving = false }

-- A sheet that was there keeps its state.
abbrev pub show : Option Lead → Option Sheet → World → World
show none o w = record w { sheet = none }
show (some lead) none w = record w { sheet = some (fresh w.mounts lead); mounts = suc w.mounts }
show (some lead) (some s) w = record w { sheet = some (record s { lead = lead }) }

-- What React makes of the new state.
unfoldable pub render : World → World
unfolding visible
render w = show (visible w.page) w.sheet w

unfoldable pub list_call : Call (Unit {0}) (List Lead)
unfolding leads_list
list_call = leads_list none

-- `reload` up to its answer.
unfoldable pub reload : World → World
reload w = record w { page = record (w.page) { loading = true }; pending = w.pending ++ load ∷ [] }

unfoldable pub mounted : World
unfolding opened reload
mounted =
    reload
      (record { page = opened; sheet = none; mounts = 0; pending = []; saves = []; toasts = [] })

-- The rest of `reload`.
unfoldable pub loaded : Result (List Lead) → State → State
loaded (resolved v) s = record s { leads = get_or v []; loading = false }
loaded (rejected e) s = record s { error = some (get_message e); loading = false }

abbrev pub same_status : LeadStatus → LeadStatus → Bool
same_status LeadStatus.new LeadStatus.new = true
same_status LeadStatus.in_progress LeadStatus.in_progress = true
same_status LeadStatus.qualified LeadStatus.qualified = true
same_status LeadStatus.closed LeadStatus.closed = true
same_status LeadStatus.lost LeadStatus.lost = true
same_status _ _ = false

abbrev pub status_actions : List (LeadStatus × String)
status_actions =
    (LeadStatus.new, "Novo")
    ∷ (LeadStatus.in_progress, "Em atendimento")
    ∷ (LeadStatus.qualified, "Qualificado")
    ∷ (LeadStatus.closed, "Fechado")
    ∷ (LeadStatus.lost, "Não fechou")
    ∷ []

-- `statusActions.find(…)?.label`, which a template prints as "undefined" where there is none.
abbrev label_of : LeadStatus → String
label_of next = elim (find (λ a. same_status a.0 next) status_actions) [
  | none ↦ "undefined"
  | some a ↦ a.1
]

-- `handleStatusChange` up to its `await`: it ends where nothing would change.
unfoldable pub change_status : Lead → LeadStatus → World → World
change_status lead next w = if same_status lead.status next then w else record w {
  page = record (w.page) { updating_id = some lead.id };
  pending = w.pending ++ act (record { lead = lead; next = next }) ∷ [];
}

unfoldable pub change_call : Change → Call Fields Lead
unfolding leads_update_status
change_call c = leads_update_status c.lead.id c.next

abbrev note : String → String → Variant → Options
note title description variant = record {
  title = some title;
  description = some description;
  variant = some variant;
  duration = none;
}

abbrev say : Options → World → World
say o w = record w { toasts = w.toasts ++ o ∷ [] }

-- `lead.name || "Indicação"`.
abbrev name_of : Option String → String
name_of none = "Indicação"
name_of (some v) = or_else v "Indicação"

abbrev changed_note : Change → Options
changed_note c =
    note "Status atualizado"
      (String.◌++◌ (name_of c.lead.name) (String.◌++◌ " → " (label_of c.next))) Variant.success

abbrev refused_note : String → Options
refused_note message = note "Não foi possível atualizar" message Variant.destructive

abbrev idle : World → World
idle w = record w { page = record (w.page) { updating_id = none } }

-- The rest of `handleStatusChange`; in the end `setUpdatingId(null)`.
unfoldable pub changed : Change → Result Lead → World → World
unfolding reload
changed c (resolved v) w = idle (reload (say (changed_note c) w))
changed c (rejected e) w = idle (say (refused_note (message_or "Erro inesperado" e)) w)

-- `onClose` of the sheet.
unfoldable pub close : World → World
close w = record w { page = record (w.page) { selected = none } }

-- `handleSave` of a sheet up to its `await`.
unfoldable pub save : Sheet → World → World
unfolding close
save s w = if same_status s.status s.lead.status then close w else record w {
  sheet = some (record s { saving = true });
  saves = w.saves ++ record { number = s.number; id = s.lead.id; status = s.status } ∷ [];
}

unfoldable pub save_call : Save → Call Fields Lead
unfolding leads_update_status
save_call s = leads_update_status s.id s.status

abbrev saved_note : Save → Options
saved_note s =
    note "Status atualizado"
      (String.◌++◌ "Indicação marcada como \"" (String.◌++◌ (lead_status s.status) "\""))
      Variant.success

-- `setSaving(false)` reaches the sheet that sent the request, while that is mounted.
abbrev pub resume : ℕ → Option Sheet → Option Sheet
resume n none = none
resume n (some s) = if n == s.number then some (record s { saving = false }) else some s

-- The rest of `handleSave`: on success `onUpdated`, which reloads and closes what is open.
unfoldable pub saved : Save → Result Lead → World → World
unfolding reload close
saved s (resolved v) w = close (reload (say (saved_note s) w))
saved s (rejected e) w =
    let w' = say (refused_note (message_or "Erro inesperado" e)) w in
    record w' { sheet = resume s.number w'.sheet }
