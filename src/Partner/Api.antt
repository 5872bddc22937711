-- ===== src/Partner/Api.antt =====
-- web/apps/partner/app/lib/api.ts: its interfaces and the method, path and body of each call. `request`
-- and `ApiError` of lines 1 to 41 are those of the dashboard's, which `Http` models.
use indica_ai.Prelude.{ℕ, Option, none, some, List, [], Text, String, codes}
use indica_ai.Js.Decimal.{decimal}
use indica_ai.Js.Params.{Params, set}
use indica_ai.Http.{Call, api_get, api_post, api_patch, with_query}
use indica_ai.Prelude.Int.{ℤ}

-- `J` is the type of the fields that are free JSON.
pub record RewardRule (J : Type 0) : Type 0 where
  pub kind : String
  pub max_pct : Option ℤ
  pub amount_brl : Option ℤ
  pub pct : Option ℤ
  pub metric : Option String
  pub tiers : Option (List J)

pub record PayoutRule : Type 0 where
  pub method : String
  pub schedule : String
  pub min_amount_brl : Option ℤ

pub record ProgramRules (J : Type 0) : Type 0 where
  pub schema_version : Option ℕ
  pub trigger : Option String
  pub attribution_window_days : Option ℕ
  pub reward : Option (RewardRule J)
  pub payout : Option PayoutRule
  pub limits : Option J

pub record PartnerMe (J : Type 0) : Type 0 where
  pub partner_id : String
  pub name : String
  pub email : Option String
  pub phone_e164 : Option String
  pub status : String
  pub program_id : String
  pub program_name : String
  pub program_rules : ProgramRules J
  pub link_url : Option String
  pub clicks : ℕ
  pub referrals : ℕ
  pub pending_rewards_cents : ℕ
  pub approved_rewards_cents : ℕ
  pub paid_rewards_cents : ℕ
  pub created_at : String

pub data LeadStatus : Type 0 where
  new in_progress qualified closed lost : LeadStatus

pub record PartnerReferral : Type 0 where
  pub lead_id : String
  pub lead_name : Option String
  pub status : LeadStatus
  pub source : String
  pub created_at : String
  pub closed_at : Option String
  pub sale_amount_cents : Option ℕ
  pub reward_cents : Option ℕ
  pub reward_status : Option String

pub record Session : Type 0 where
  pub id : String
  pub email : String
  pub name : String
  pub tenant_id : Option String
  pub tenant_name : Option String

-- An answer with a message, and for a magic link in development its token.
pub record Message : Type 0 where
  pub message : String
  pub dev_token : Option String

pub record AccessToken : Type 0 where
  pub access_token : String

pub record Field : Type 0 where
  pub key : String
  pub value : String

-- A share of the sale is a count of half-thousandths of a percent.
pub record SplitChoice : Type 0 where
  pub commission_pct : ℤ
  pub discount_pct : ℤ

pub record CreatePartnerLeadRequest : Type 0 where
  pub name : Option String
  pub phone_e164 : Text
  pub email : Option String
  pub notes : Option String
  pub split_choice : Option SplitChoice

pub record CreatedLead : Type 0 where
  pub lead_id : String
  pub referral_id : String

pub record Wallet : Type 0 where
  pub available_cents : ℕ
  pub hold_cents : ℕ
  pub pending_cents : ℕ
  pub total_paid_cents : ℕ

pub data PayoutStatus : Type 0 where
  pending processing paid failed cancelled : PayoutStatus

pub record Payout (J : Type 0) : Type 0 where
  pub id : String
  pub partner_id : String
  pub reward_ids : List String
  pub amount_cents : ℕ
  pub currency : String
  pub method : String
  pub status : PayoutStatus
  pub pix_key : Option String
  pub pix_key_type : Option String
  pub paid_at : Option String
  pub metadata : Option J
  pub created_at : String
  pub updated_at : String

pub record Payouts (J : Type 0) : Type 0 where
  pub items : List (Payout J)
  pub total : ℕ

pub data PixKeyType : Type 0 where
  cpf cnpj email phone random : PixKeyType

pub record UpdatePixKey : Type 0 where
  pub pix_key : Text
  pub pix_key_type : PixKeyType

-- authApi
unfoldable pub request_magic_link : String → Call Field Message
request_magic_link address =
    api_post (codes "/api/auth/magic-link") (some (record { key = "email"; value = address }))

unfoldable pub verify_magic_link : String → Call Field AccessToken
verify_magic_link token =
    api_post (codes "/api/auth/magic-link/verify") (some (record { key = "token"; value = token }))

unfoldable pub logout : Call (Unit {0}) Message
logout = api_post (codes "/api/auth/logout") none

unfoldable pub session : Call (Unit {0}) Session
session = api_get (codes "/api/me")

-- partnerApi
unfoldable pub me : {J : Type 0} → Call (Unit {0}) (PartnerMe J)
me = api_get (codes "/api/partner/me")

unfoldable pub referrals : Call (Unit {0}) (List PartnerReferral)
referrals = api_get (codes "/api/partner/referrals")

unfoldable pub create_lead : CreatePartnerLeadRequest → Call CreatePartnerLeadRequest CreatedLead
create_lead lead = api_post (codes "/api/partner/leads") (some lead)

unfoldable pub wallet : Call (Unit {0}) Wallet
wallet = api_get (codes "/api/partners/me/wallet")

-- `params?.x != null`: a zero is sent.
abbrev set_number : String → Option ℕ → Params → Params
set_number key none params = params
set_number key (some n) params = set key (decimal n) params

unfoldable pub payouts_params : Option ℕ → Option ℕ → Params
payouts_params limit offset = set_number "offset" offset (set_number "limit" limit [])

unfoldable pub payouts : {J : Type 0} → Option ℕ → Option ℕ → Call (Unit {0}) (Payouts J)
unfolding payouts_params
payouts limit offset =
    api_get (with_query (codes "/api/partners/me/payouts") (payouts_params limit offset))

unfoldable pub update_pix_key : UpdatePixKey → Call UpdatePixKey Message
update_pix_key key = api_patch (codes "/api/partners/me/pix-key") (some key)
