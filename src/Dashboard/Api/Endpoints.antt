-- ===== src/Dashboard/Api/Endpoints.antt =====
-- The calls of web/apps/dashboard/app/lib/api.ts: method, path, query and body of each.
pub mod Laws
use indica_ai.Prelude.{
  ℕ, Option, none, some, List, [], ◌∷◌, ◌++◌, Text, String, codes, str_eq, ◌==◌, if◌then◌else◌,
}
use indica_ai.Js.Decimal.{decimal}
use indica_ai.Js.Params.{Params, set}
use indica_ai.Http.{Call, api_get, api_post, api_patch, with_query}
use indica_ai.Dashboard.Api.Types.{
  Program, CreateProgramRequest, DashboardOverview, Partner, CreatePartnerRequest, LeadStatus, Lead,
  RewardStatus, Reward, RewardSummary, Me, PayoutStatus, PayoutsResponse, AuditEntry, AuditSummary,
  FraudEvaluation, Session,
}

-- A body with one or two named fields.
abbrev pub Fields : Type 0
Fields = List (String × String)

-- The JSON text of each status.
abbrev pub lead_status : LeadStatus → String
lead_status LeadStatus.new = "new"
lead_status LeadStatus.in_progress = "in_progress"
lead_status LeadStatus.qualified = "qualified"
lead_status LeadStatus.closed = "closed"
lead_status LeadStatus.lost = "lost"

abbrev pub reward_status : RewardStatus → String
reward_status RewardStatus.pending = "pending"
reward_status RewardStatus.approved = "approved"
reward_status RewardStatus.paid = "paid"
reward_status RewardStatus.rejected = "rejected"
reward_status RewardStatus.cancelled = "cancelled"

abbrev pub payout_status : PayoutStatus → String
payout_status PayoutStatus.pending = "pending"
payout_status PayoutStatus.processing = "processing"
payout_status PayoutStatus.paid = "paid"
payout_status PayoutStatus.failed = "failed"
payout_status PayoutStatus.cancelled = "cancelled"

-- `if (x) params.set(k, x)` for a string and for a number: a missing, an empty and a zero one are
-- left out.
set_text : String → Option String → Params → Params
set_text k none ps = ps
set_text k (some v) ps = if str_eq v "" then ps else set k (codes v) ps

set_number : String → Option ℕ → Params → Params
set_number k none ps = ps
set_number k (some n) ps = if n == 0 then ps else set k (decimal n) ps

-- dashboardApi, partnersApi, authApi
unfoldable pub dashboard_overview : Call (Unit {0}) DashboardOverview
dashboard_overview = api_get (codes "/api/dashboard/overview")

unfoldable pub partners_list : Call (Unit {0}) (List Partner)
partners_list = api_get (codes "/api/partners")

unfoldable pub partners_create : CreatePartnerRequest → Call CreatePartnerRequest Partner
partners_create request = api_post (codes "/api/partners") (some request)

unfoldable pub auth_me : Call (Unit {0}) Me
auth_me = api_get (codes "/api/me")

unfoldable pub auth_logout : Call (Unit {0}) Fields
auth_logout = api_post (codes "/api/auth/logout") none

-- leadsApi
unfoldable pub leads_params : Option LeadStatus → Params
leads_params none = []
leads_params (some s) = set "status" (codes (lead_status s)) []

unfoldable pub leads_list : Option LeadStatus → Call (Unit {0}) (List Lead)
unfolding leads_params
leads_list status = api_get (with_query (codes "/api/leads") (leads_params status))

unfoldable pub leads_update_status : String → LeadStatus → Call Fields Lead
leads_update_status id status =
    api_patch (codes "/api/leads/" ++ codes id ++ codes "/status")
      (some (("status", lead_status status) ∷ []))

-- rewardsApi
unfoldable pub rewards_params : Option RewardStatus → Params
rewards_params none = []
rewards_params (some s) = set "status" (codes (reward_status s)) []

unfoldable pub rewards_list : Option RewardStatus → Call (Unit {0}) (List Reward)
unfolding rewards_params
rewards_list status = api_get (with_query (codes "/api/rewards") (rewards_params status))

rewards_summary : Call (Unit {0}) RewardSummary
rewards_summary = api_get (codes "/api/rewards/summary")

unfoldable pub rewards_approve : String → Call (Unit {0}) Fields
rewards_approve id = api_patch (codes "/api/rewards/" ++ codes id ++ codes "/approve") none

unfoldable pub rewards_reject : String → String → Call Fields Fields
rewards_reject id reason =
    api_patch (codes "/api/rewards/" ++ codes id ++ codes "/reject")
      (some (("reason", reason) ∷ []))

-- programsApi
module _ {J : Type 0} where
  unfoldable pub programs_list : Call (Unit {0}) (List (Program J))
  programs_list = api_get (codes "/api/programs")

  programs_get : String → Call (Unit {0}) (Program J)
  programs_get id = api_get (codes "/api/programs/" ++ codes id)

  unfoldable pub programs_create :
      {R : Type 0} → CreateProgramRequest R → Call (CreateProgramRequest R) (Program J)
  programs_create request = api_post (codes "/api/programs") (some request)

programs_update_status : String → String → Call Fields Fields
programs_update_status id status =
    api_patch (codes "/api/programs/" ++ codes id ++ codes "/status")
      (some (("status", status) ∷ []))

-- auditApi
unfoldable pub audit_params : Option String → Option String → Option ℕ → Params
unfolding set_text set_number
audit_params action entity_type limit =
    set_number "limit" limit (set_text "entity_type" entity_type (set_text "action" action []))

unfoldable pub audit_list :
    Option String → Option String → Option ℕ → Call (Unit {0}) (List AuditEntry)
unfolding audit_params
audit_list action entity_type limit =
    api_get (with_query (codes "/api/audit-log") (audit_params action entity_type limit))

unfoldable pub audit_summary : Call (Unit {0}) AuditSummary
audit_summary = api_get (codes "/api/audit-log/summary")

unfoldable pub fraud_params : Option String → Option ℕ → Params
unfolding set_text set_number
fraud_params action limit = set_number "limit" limit (set_text "action" action [])

unfoldable pub audit_fraud_evaluations :
    Option String → Option ℕ → Call (Unit {0}) (List FraudEvaluation)
unfolding fraud_params
audit_fraud_evaluations action limit =
    api_get (with_query (codes "/api/audit-log/fraud-evaluations") (fraud_params action limit))

-- sessionsApi
sessions_list : Call (Unit {0}) (List Session)
sessions_list = api_get (codes "/api/me/sessions")

sessions_revoke : String → Call (Unit {0}) Fields
sessions_revoke id = api_post (codes "/api/me/sessions/" ++ codes id ++ codes "/revoke") none

sessions_revoke_all : Call (Unit {0}) Fields
sessions_revoke_all = api_post (codes "/api/me/sessions/revoke-all") none

-- payoutsApi
unfoldable pub payouts_params : Option PayoutStatus → Option ℕ → Option ℕ → Params
unfolding set_text set_number
payouts_params status page limit = set_number "limit" limit (
    set_number "page" page
      (elim status [ none ↦ [] | some s ↦ set "status" (codes (payout_status s)) [] ]))

unfoldable pub payouts_list :
    Option PayoutStatus → Option ℕ → Option ℕ → Call (Unit {0}) PayoutsResponse
unfolding payouts_params
payouts_list status page limit =
    api_get (with_query (codes "/api/tenants/me/payouts") (payouts_params status page limit))

payouts_create_job : Call (Unit {0}) ℕ
payouts_create_job = api_post (codes "/api/tenants/me/payouts/create-job") none

abbrev payout_path : String → String → Text
payout_path id action = codes "/api/tenants/me/payouts/" ++ codes id ++ codes action

payouts_confirm : String → Call (Unit {0}) Fields
payouts_confirm id = api_post (payout_path id "/confirm") none

payouts_paid : String → Option Fields → Call Fields Fields
payouts_paid id body = api_post (payout_path id "/paid") body

-- `reason ? { reason } : undefined`.
payouts_cancel : String → Option String → Call Fields Fields
payouts_cancel id none = api_post (payout_path id "/cancel") none
payouts_cancel id (some reason) =
    api_post (payout_path id "/cancel")
      (if str_eq reason "" then none else some (("reason", reason) ∷ []))
