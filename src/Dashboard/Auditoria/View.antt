-- ===== src/Dashboard/Auditoria/View.antt =====
-- What web/apps/dashboard/app/(app)/auditoria/page.tsx shows: cards, tabs, the tables of events and of fraud
-- evaluations with the row that is expanded. Dates stay as they came, and JSON unprinted.
use indica_ai.Prelude.{
  ℕ, ◌+◌, Bool, false, ◌&&◌, not, Option, none, some, List, [], ◌∷◌, ◌++◌, map, Text, String, codes,
  str_eq, ltb, leb, if◌then◌else◌, length, take,
}
use indica_ai.Js.Json.{Json, is_truthy, length_keys}
use indica_ai.Dashboard.Words.{dashed}
use indica_ai.Dashboard.Api.Types.{
  AuditEntry, AuditSummary, FraudEvaluation, FraudSignal, FraudAction,
}
use indica_ai.Dashboard.Auditoria.{Tab, events_tab, fraud_tab, State}

pub data BadgeVariant : Type 0 where
  success warning destructive default : BadgeVariant

abbrev pub fraud_action_config : FraudAction → String × BadgeVariant
fraud_action_config FraudAction.ok = ("Aprovado", BadgeVariant.success)
fraud_action_config FraudAction.review = ("Revisar", BadgeVariant.warning)
fraud_action_config FraudAction.block = ("Bloqueado", BadgeVariant.destructive)

-- `summary?.fraud_review ?? 0` and its like.
pub record Cards : Type 0 where
  pub events : ℕ
  pub approved : ℕ
  pub in_review : ℕ
  pub blocked : ℕ

unfoldable pub cards : Option AuditSummary → Cards
cards none = record { events = 0; approved = 0; in_review = 0; blocked = 0 }
cards (some s) = record {
  events = s.entries_last_30_days;
  approved = s.fraud_ok;
  in_review = s.fraud_review;
  blocked = s.fraud_block;
}

unfoldable pub fraud_count : Option AuditSummary → ℕ
fraud_count none = 0
fraud_count (some s) = s.fraud_review + s.fraud_block

-- A value is shown as it is if it is a text, and printed as JSON otherwise.
pub record Block : Type 0 where
  pub label : String
  pub value : Json

abbrev shown : Bool → String → Json → List Block
shown b label value = if b then record { label = label; value = value } ∷ [] else []

abbrev agent_block : Option String → List Block
agent_block none = []
agent_block (some a) = shown (not (str_eq a "")) "User-Agent" (Json.text a)

-- `DetailGrid`; with no block it says that there are no details.
unfoldable pub detail_grid : AuditEntry → List Block
detail_grid e =
    agent_block e.user_agent
    ++ (shown (is_truthy e.old_values) "Antes" e.old_values
        ++ (shown (is_truthy e.new_values) "Depois" e.new_values
            ++ shown (is_truthy e.metadata && ltb 0 (length_keys e.metadata)) "Metadata"
                e.metadata))

abbrev pub is_expanded : Option String → String → Bool
is_expanded none id = false
is_expanded (some k) id = str_eq k id

-- The detail of a row, if it is the expanded one.
abbrev detail {ℓ} : {A : Type ℓ} → Bool → A → Option A
detail b a = if b then some a else none

-- `e.entity_id && e.entity_id.slice(0, 8)`.
abbrev short_id : Option String → Option Text
short_id none = none
short_id (some k) = if str_eq k "" then none else some (take 8 (codes k))

pub record EventRow : Type 0 where
  pub id : String
  pub created_at : String
  pub user_email : Option String
  pub action : String
  pub entity_type : String
  pub entity_id : Option Text
  pub ip_address : String
  pub blocks : Option (List Block)

-- An address that is null shows as "sistema".
unfoldable pub event_row : Option String → AuditEntry → EventRow
unfolding detail_grid
event_row expanded e = record {
  id = e.id;
  created_at = e.created_at;
  user_email = e.user_email;
  action = e.action;
  entity_type = e.entity_type;
  entity_id = short_id e.entity_id;
  ip_address = dashed e.ip_address;
  blocks = detail (is_expanded expanded e.id) (detail_grid e);
}

pub data Tone : Type 0 where
  error_tone warning_tone neutral_tone faint_tone : Tone

unfoldable pub score_tone : ℕ → Tone
score_tone n =
    if ltb 0 n
    then if leb 61 n then error_tone else if leb 31 n then warning_tone else neutral_tone
    else faint_tone

-- `.map((s) => s.name).join(", ")`, or "—" where no signal fired.
unfoldable pub join_names : List FraudSignal → Text
join_names [] = []
join_names (s ∷ []) = codes s.name
join_names (s ∷ t ∷ ss) = codes s.name ++ b',' ∷ b' ' ∷ join_names (t ∷ ss)

abbrev signal_names : List FraudSignal → Text
signal_names [] = codes "—"
signal_names (s ∷ ss) = join_names (s ∷ ss)

-- `FraudDetail`: the signals that fired, and the evidence.
pub record FraudDetail : Type 0 where
  pub signals : List FraudSignal
  pub evidence : Json

pub record FraudRow : Type 0 where
  pub id : String
  pub created_at : String
  pub partner_name : String
  pub score : ℕ
  pub tone : Tone
  pub badge : String × BadgeVariant
  pub signals : Text
  pub expansion : Option FraudDetail

unfoldable pub fraud_row : Option String → FraudEvaluation → FraudRow
unfolding score_tone join_names
fraud_row expanded f = record {
  id = f.id;
  created_at = f.created_at;
  partner_name = f.partner_name;
  score = f.score;
  tone = score_tone f.score;
  badge = fraud_action_config f.action;
  signals = signal_names f.signals;
  expansion =
      detail (is_expanded expanded f.id) (record { signals = f.signals; evidence = f.evidence });
}

-- A table with no row has a text in its place.
pub data Body : Type 0 where
  loading_text : Body
  events_table : List EventRow → Body
  fraud_table : List FraudRow → Body

pub record View : Type 0 where
  pub shown_cards : Cards
  pub error : Option String
  pub events_label : ℕ
  pub fraud_label : Option ℕ
  pub body : Body

abbrev body_of : Tab → State → Body
body_of events_tab s = Body.events_table (map (event_row s.expanded_id) s.entries)
body_of fraud_tab s = Body.fraud_table (map (fraud_row s.expanded_id) s.fraud)

unfoldable pub view : State → View
unfolding cards fraud_count event_row fraud_row
view s = record {
  shown_cards = cards s.summary;
  error = s.error;
  events_label = length s.entries;
  fraud_label = if ltb 0 (fraud_count s.summary) then some (fraud_count s.summary) else none;
  body = if s.loading then Body.loading_text else body_of s.tab s;
}
