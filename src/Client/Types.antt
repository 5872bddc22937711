-- ===== src/Client/Types.antt =====
-- The interfaces of web/packages/api-client/src/auth.ts, leads.ts, partners.ts and programs.ts.
use indica_ai.Prelude.{ℕ, Option, List, String}
use indica_ai.Prelude.Int.{ℤ}

pub record LoginRequest : Type 0 where
  pub email : String
  pub password : String

pub data Role : Type 0 where
  owner admin member saas_admin : Role

pub record User : Type 0 where
  pub id : String
  pub email : String
  pub name : String
  pub role : Role

pub record Tenant : Type 0 where
  pub id : String
  pub name : String
  pub slug : String
  pub plan : String

pub record LoginResponse : Type 0 where
  pub user : User
  pub tenant : Tenant

pub data LeadStatus : Type 0 where
  new in_progress qualified closed lost : LeadStatus

pub record Lead : Type 0 where
  pub id : String
  pub tenant_id : String
  pub program_id : String
  pub partner_id : String
  pub name : String
  pub email : Option String
  pub phone : Option String
  pub referral_code : Option String
  pub status : LeadStatus
  pub created_at : String
  pub updated_at : String

pub record CreateLeadRequest : Type 0 where
  pub name : String
  pub email : Option String
  pub phone : Option String
  pub referral_code : Option String
  pub program_id : String

pub record UpdateLeadStatusRequest : Type 0 where
  pub status : LeadStatus

pub data RewardStatus : Type 0 where
  pending approved paid cancelled : RewardStatus

-- An amount is a count of thousandths.
pub record Reward : Type 0 where
  pub id : String
  pub lead_id : String
  pub partner_id : String
  pub kind : String
  pub amount : Option ℤ
  pub status : RewardStatus
  pub created_at : String

pub data PartnerStatus : Type 0 where
  active inactive blocked : PartnerStatus

pub record Partner : Type 0 where
  pub id : String
  pub tenant_id : String
  pub program_id : String
  pub name : String
  pub email : String
  pub phone : Option String
  pub slug : String
  pub status : PartnerStatus
  pub pix_key : Option String
  pub total_referrals : ℕ
  pub total_earnings : ℤ
  pub created_at : String

pub record CreatePartnerRequest : Type 0 where
  pub name : String
  pub email : String
  pub phone : Option String
  pub program_id : String

-- `Partial<CreatePartnerRequest>`.
pub record UpdatePartnerRequest : Type 0 where
  pub name : Option String
  pub email : Option String
  pub phone : Option String
  pub program_id : Option String

pub record PartnerStats : Type 0 where
  pub total_clicks : ℕ
  pub total_referrals : ℕ
  pub total_conversions : ℕ
  pub pending_earnings : ℤ
  pub approved_earnings : ℤ
  pub paid_earnings : ℤ

pub data ProgramStatus : Type 0 where
  active paused draft : ProgramStatus

-- A reward has its type and any other fields, of a free type `J`.
pub record RewardRule (J : Type 0) : Type 0 where
  pub kind : String
  pub fields : List (String × J)

pub record PayoutRule : Type 0 where
  pub method : String
  pub schedule : String
  pub min_amount_brl : Option ℤ

pub record LimitsRule : Type 0 where
  pub max_per_partner_per_day : Option ℕ
  pub max_total_payout_brl : Option ℤ

pub record ProgramRules (J : Type 0) : Type 0 where
  pub schema_version : ℕ
  pub trigger : String
  pub attribution_window_days : ℕ
  pub reward : RewardRule J
  pub payout : PayoutRule
  pub limits : LimitsRule

pub record Program (J : Type 0) : Type 0 where
  pub id : String
  pub tenant_id : String
  pub name : String
  pub slug : String
  pub status : ProgramStatus
  pub rules : ProgramRules J
  pub created_at : String
  pub updated_at : String

pub record CreateProgramRequest (J : Type 0) : Type 0 where
  pub name : String
  pub rules : ProgramRules J

-- `Partial<CreateProgramRequest>`.
pub record UpdateProgramRequest (J : Type 0) : Type 0 where
  pub name : Option String
  pub rules : Option (ProgramRules J)
