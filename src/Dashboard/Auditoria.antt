-- ===== src/Dashboard/Auditoria.antt =====
-- The audit page, web/apps/dashboard/app/(app)/auditoria/page.tsx: its state, `reload` with the promise
-- that joins its three requests, and the clicks on tabs and rows.
pub mod View
pub mod Traces
pub mod Scores
pub mod Rows
use indica_ai.Prelude.{
  Bool, true, false, Option, none, some, List, [], ◌∷◌, String, str_eq, get_or, if◌then◌else◌,
}
use indica_ai.Http.{Call, Thrown, Result, resolved, rejected, get_message}
use indica_ai.Dashboard.Api.Types.{AuditEntry, AuditSummary, FraudEvaluation}
use indica_ai.Dashboard.Api.Endpoints.{audit_list, audit_summary, audit_fraud_evaluations}

pub data Tab : Type 0 where
  events_tab fraud_tab : Tab

pub record State : Type 0 where
  pub tab : Tab
  pub summary : Option AuditSummary
  pub entries : List AuditEntry
  pub fraud : List FraudEvaluation
  pub loading : Bool
  pub error : Option String
  pub expanded_id : Option String

unfoldable pub opened : State
opened = record {
  tab = events_tab;
  summary = none;
  entries = [];
  fraud = [];
  loading = true;
  error = none;
  expanded_id = none;
}

-- The three requests of `reload`.
unfoldable pub summary_call : Call (Unit {0}) AuditSummary
unfolding audit_summary
summary_call = audit_summary

unfoldable pub list_call : Call (Unit {0}) (List AuditEntry)
unfolding audit_list
list_call = audit_list none none (some 100)

unfoldable pub fraud_call : Call (Unit {0}) (List FraudEvaluation)
unfolding audit_fraud_evaluations
fraud_call = audit_fraud_evaluations none (some 100)

-- An answer to one of the three.
pub data Arrival : Type 0 where
  summary_came : Result AuditSummary → Arrival
  entries_came : Result (List AuditEntry) → Arrival
  fraud_came : Result (List FraudEvaluation) → Arrival

-- What `Promise.all` has so far. A value that came may be null.
pub record Slots : Type 0 where
  pub summary : Option (Option AuditSummary)
  pub entries : Option (Option (List AuditEntry))
  pub fraud : Option (Option (List FraudEvaluation))

pub data Joined : Type 0 where
  waiting : Slots → Joined
  fulfilled :
      Option AuditSummary → Option (List AuditEntry) → Option (List FraudEvaluation) → Joined
  failed : Thrown → Joined

abbrev pub started : Joined
started = waiting (record { summary = none; entries = none; fraud = none })

abbrev complete_from :
    Option (Option AuditSummary)
    → Option (Option (List AuditEntry))
    → Option (Option (List FraudEvaluation))
    → Joined
complete_from (some s) (some e) (some f) = fulfilled s e f
complete_from s e f = waiting (record { summary = s; entries = e; fraud = f })

abbrev complete : Slots → Joined
complete slots = complete_from slots.summary slots.entries slots.fraud

-- `Promise.all`: the first rejection decides, and once settled it stays as it is.
unfoldable pub arrive : Arrival → Joined → Joined
arrive (summary_came (resolved v)) (waiting s) = complete (record s { summary = some v })
arrive (entries_came (resolved v)) (waiting s) = complete (record s { entries = some v })
arrive (fraud_came (resolved v)) (waiting s) = complete (record s { fraud = some v })
arrive (summary_came (rejected e)) (waiting s) = failed e
arrive (entries_came (rejected e)) (waiting s) = failed e
arrive (fraud_came (rejected e)) (waiting s) = failed e
arrive a (fulfilled s e f) = fulfilled s e f
arrive a (failed e) = failed e

-- The rest of `reload`, once the promise is settled.
unfoldable pub loaded : Joined → State → State
loaded (waiting slots) s = s
loaded (fulfilled sum e f) s = record s {
  summary = sum;
  entries = get_or e [];
  fraud = get_or f [];
  loading = false;
}
loaded (failed e) s = record s { error = some (get_message e); loading = false }

pub record World : Type 0 where
  pub page : State
  pub joined : Joined

unfoldable pub mounted : World
unfolding opened
mounted = record { page = opened; joined = started }

-- Only an answer that settles the promise reaches the page.
abbrev settle_from : Joined → Joined → State → State
settle_from (waiting slots) j s = loaded j s
settle_from _ j s = s

unfoldable pub answer : Arrival → World → World
unfolding arrive loaded
answer a w =
    let j = arrive a w.joined in record w { page = settle_from w.joined j w.page; joined = j }

unfoldable pub set_tab : Tab → State → State
set_tab t s = record s { tab = t }

-- `setExpandedId(expandedId === id ? null : id)`.
abbrev pub toggled : Option String → String → Option String
toggled none id = some id
toggled (some k) id = if str_eq k id then none else some id

unfoldable pub toggle : String → State → State
toggle id s = record s { expanded_id = toggled s.expanded_id id }
