-- ===== src/Dashboard/Api/Types.antt =====
-- The interfaces of web/apps/dashboard/app/lib/api.ts. Amounts are natural numbers of cents, which
-- JavaScript adds exactly below 2^53; the two percentages of the overview are signed hundredths.
use indica_ai.Prelude.{ℕ, Bool, Option, String, List}
use indica_ai.Prelude.Int.{ℤ}
use indica_ai.Js.Json.{Json}

pub data ProgramStatus : Type 0 where
  active paused draft : ProgramStatus

-- `J` is the type of `rules` and `settings`.
pub record Program (J : Type 0) : Type 0 where
  pub id : String
  pub tenant_id : String
  pub name : String
  pub description : Option String
  pub status : ProgramStatus
  pub rules : J
  pub redirect_type : String
  pub redirect_url : Option String
  pub whatsapp_number : Option String
  pub settings : J
  pub created_at : String

-- `R` is the type of the free objects `rules` and `settings`.
pub record CreateProgramRequest (R : Type 0) : Type 0 where
  pub name : String
  pub description : Option String
  pub rules : R
  pub redirect_type : String
  pub redirect_url : Option String
  pub whatsapp_number : Option String
  pub settings : Option R

pub record DayCount : Type 0 where
  pub day : String
  pub count : ℕ

pub record TopPartner : Type 0 where
  pub name : String
  pub referrals : ℕ
  pub amount_cents : ℕ

pub record RecentLead : Type 0 where
  pub id : String
  pub name : String
  pub partner_name : String
  pub status : String
  pub created_at : String

pub record DashboardOverview : Type 0 where
  pub clicks_last_7_days : ℕ
  pub clicks_delta_pct : ℤ
  pub new_leads_last_7_days : ℕ
  pub leads_delta_pct : ℤ
  pub pending_rewards_cents : ℕ
  pub active_partners : ℕ
  pub clicks_per_day : List DayCount
  pub top_partners : List TopPartner
  pub recent_leads : List RecentLead

pub data PartnerStatus : Type 0 where
  active pending suspended : PartnerStatus

pub record Partner : Type 0 where
  pub id : String
  pub name : String
  pub email : Option String
  pub phone_e164 : Option String
  pub status : PartnerStatus
  pub program_id : String
  pub program_name : String
  pub link_slug : Option String
  pub link_url : Option String
  pub referrals : ℕ
  pub clicks : ℕ
  pub commission_cents : ℕ
  pub created_at : String

pub record CreatePartnerRequest : Type 0 where
  pub name : String
  pub email : Option String
  pub phone_e164 : Option String
  pub program_id : String

pub data LeadStatus : Type 0 where
  new in_progress qualified closed lost : LeadStatus

pub record Lead : Type 0 where
  pub id : String
  pub name : Option String
  pub phone_e164 : Option String
  pub email : Option String
  pub status : LeadStatus
  pub source : String
  pub notes : Option String
  pub closed_at : Option String
  pub created_at : String
  pub program_id : String
  pub program_name : String
  pub partner_id : Option String
  pub partner_name : Option String
  pub sale_amount_cents : Option ℕ

pub data RewardStatus : Type 0 where
  pending approved paid rejected cancelled : RewardStatus

pub record Reward : Type 0 where
  pub id : String
  pub kind : String
  pub amount_cents : ℕ
  pub currency : String
  pub status : RewardStatus
  pub approved_at : Option String
  pub rejected_reason : Option String
  pub created_at : String
  pub program_id : String
  pub program_name : String
  pub partner_id : String
  pub partner_name : String
  pub lead_name : Option String

pub record RewardSummary : Type 0 where
  pub pending : ℕ
  pub approved : ℕ
  pub paid : ℕ
  pub rejected : ℕ
  pub cancelled : ℕ

pub record Me : Type 0 where
  pub id : String
  pub email : String
  pub name : String
  pub role : String
  pub email_verified : Bool
  pub tenant_id : Option String
  pub tenant_name : Option String

pub data PayoutStatus : Type 0 where
  pending processing paid failed cancelled : PayoutStatus

pub record Payout : Type 0 where
  pub id : String
  pub partner_id : String
  pub partner_name : String
  pub pix_key : Option String
  pub pix_key_type : Option String
  pub amount_cents : ℕ
  pub currency : String
  pub method : String
  pub status : PayoutStatus
  pub created_at : String
  pub reward_count : Option ℕ

pub record PayoutsResponse : Type 0 where
  pub payouts : Option (List Payout)
  pub total_count : ℕ
  pub page : ℕ
  pub limit : ℕ

pub record AuditEntry : Type 0 where
  pub id : String
  pub user_id : Option String
  pub user_email : Option String
  pub action : String
  pub entity_type : String
  pub entity_id : Option String
  pub old_values : Json
  pub new_values : Json
  pub ip_address : Option String
  pub user_agent : Option String
  pub metadata : Json
  pub created_at : String

pub record AuditSummary : Type 0 where
  pub total_entries : ℕ
  pub fraud_ok : ℕ
  pub fraud_review : ℕ
  pub fraud_block : ℕ
  pub entries_last_7_days : ℕ
  pub entries_last_30_days : ℕ
  pub top_actions : List (String × ℕ)

pub data FraudAction : Type 0 where
  ok review block : FraudAction

pub record FraudSignal : Type 0 where
  pub name : String
  pub points : ℕ
  pub evidence : Option Json

pub record FraudEvaluation : Type 0 where
  pub id : String
  pub partner_id : String
  pub partner_name : String
  pub lead_id : Option String
  pub score : ℕ
  pub action : FraudAction
  pub signals : List FraudSignal
  pub evidence : Json
  pub created_at : String

pub record Session : Type 0 where
  pub id : String
  pub ip_address : Option String
  pub user_agent : Option String
  pub created_at : String
  pub expires_at : String
