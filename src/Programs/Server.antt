-- ===== src/Programs/Server.antt =====
-- What the back end makes of a new program: `RuleSchema.Validate` of internal/domain/rules/schema.go
-- and the checks of `Create` in internal/api/handlers/programs/handler.go.
use indica_ai.Prelude.{
  ℕ, ◌*◌, ◌%◌, Bool, true, false, ◌&&◌, ◌||◌, not, Option, none, some, List, [], ◌∷◌, String,
  str_eq, leb, ◌==◌, is_some, if◌then◌else◌,
}
use indica_ai.Prelude.Int.{ℤ, pos, negsuc, ltb_ℤ}
use indica_ai.Dashboard.Api.Types.{CreateProgramRequest}
use indica_ai.Programs.Tiers.{num}
use indica_ai.Programs.Form.{Trigger, Reward, Rules}

-- `RewardConfig`: an amount or a percentage is a count of thousandths.
pub record RewardConfig : Type 0 where
  pub reward_type : String
  pub amount_brl : Option ℤ
  pub pct : Option ℤ
  pub max_pct : Option ℤ
  pub target : Option ℤ
  pub points_per_brl : Option ℤ
  pub points_per_conversion : Option ℤ

pub record RuleSchema : Type 0 where
  pub schema_version : ℤ
  pub trigger : String
  pub attribution_window_days : ℕ
  pub reward : RewardConfig

-- The rules are refused, or the name or the redirect is.
pub data Refusal : Type 0 where
  rules_refused name_required redirect_refused : Refusal

abbrev pub is_one_of : List String → String → Bool
is_one_of [] s = false
is_one_of (t ∷ ts) s = str_eq s t || is_one_of ts s

abbrev at_most_zero : ℤ → Bool
at_most_zero n = not (ltb_ℤ (num 0) n)

abbrev missing_or : (ℤ → Bool) → Option ℤ → Bool
missing_or bad none = true
missing_or bad (some n) = bad n

abbrev out_of_percent : ℤ → Bool
out_of_percent n = at_most_zero n || ltb_ℤ (num 100) n

unfoldable pub is_reward_refused : RewardConfig → Bool
is_reward_refused rc =
    if not (
      is_one_of
        ("commission_fixed" ∷ "commission_pct" ∷ "discount_for_lead" ∷ "flexible_split"
          ∷ "goal_based" ∷ "points" ∷ "cashback" ∷ "recurring_commission" ∷ [])
        rc.reward_type)
    then true
    else if str_eq rc.reward_type "commission_fixed"
    then missing_or at_most_zero rc.amount_brl
    else if str_eq rc.reward_type "commission_pct" || str_eq rc.reward_type "cashback"
    then missing_or out_of_percent rc.pct
    else if str_eq rc.reward_type "flexible_split"
    then missing_or out_of_percent rc.max_pct
    else if str_eq rc.reward_type "goal_based"
    then missing_or at_most_zero rc.target
    else if str_eq rc.reward_type "points"
    then not (is_some rc.points_per_brl) && not (is_some rc.points_per_conversion)
    else if str_eq rc.reward_type "recurring_commission"
    then missing_or at_most_zero rc.pct
    else false

unfoldable pub is_refused : RuleSchema → Bool
unfolding is_reward_refused
is_refused r =
    if ltb_ℤ r.schema_version (pos 1)
    then true
    else if not (
        is_one_of ("sale.confirmed" ∷ "lead.created" ∷ "lead.qualified" ∷ "payment.confirmed" ∷ [])
          r.trigger)
    then true
    else is_reward_refused r.reward

-- The value of an option of the form.
abbrev trigger_text : Trigger → String
trigger_text Trigger.sale_confirmed = "sale.confirmed"
trigger_text Trigger.payment_confirmed = "payment.confirmed"
trigger_text Trigger.manual = "manual"

-- The largest number of an `int`, in thousandths.
abbrev pub max_int : ℕ
max_int = 9223372036854775807 * 1000

-- A number that decodes into an `int`.
abbrev pub is_int : ℤ → Bool
is_int (pos n) = n % 1000 == 0 && leb n max_int
is_int (negsuc n) = (n % 1000 == 999) && leb n max_int

abbrev plain : String → RewardConfig
plain reward_type = record {
  reward_type = reward_type;
  amount_brl = none;
  pct = none;
  max_pct = none;
  target = none;
  points_per_brl = none;
  points_per_conversion = none;
}

-- `json.Unmarshal` of the object that the page sends: a target has to be an `int`.
unfoldable pub decode_reward : Reward → Option RewardConfig
decode_reward (Reward.flexible_split n) =
    some (record (plain "flexible_split") { max_pct = some n })
decode_reward (Reward.recurring_commission n) =
    some (record (plain "recurring_commission") { pct = some n })
decode_reward (Reward.goal_based n) =
    if is_int n then some (record (plain "goal_based") { target = some n }) else none
decode_reward (Reward.commission_fixed n) =
    some (record (plain "commission_fixed") { amount_brl = some n })
decode_reward (Reward.commission_pct n) = some (record (plain "commission_pct") { pct = some n })

abbrev pub decode_rules : Trigger → ℕ → Option RewardConfig → Option RuleSchema
decode_rules trigger days none = none
decode_rules trigger days (some reward) = some (record {
  schema_version = pos 1;
  trigger = trigger_text trigger;
  attribution_window_days = days;
  reward = reward;
})

-- Whether `ParseRuleSchema` refuses the rules.
abbrev pub is_unparsed : Option RuleSchema → Bool
is_unparsed none = true
is_unparsed (some r) = is_refused r

-- An empty text is replaced by "website".
abbrev pub redirects : List String
redirects = "" ∷ "website" ∷ "whatsapp" ∷ "landing" ∷ "checkout" ∷ []

-- The checks of `Create`, in order; `none` goes on to the insertion.
unfoldable pub create : CreateProgramRequest Rules → Option Refusal
unfolding decode_reward is_refused
create req =
    if is_unparsed (
      decode_rules req.rules.trigger req.rules.attribution_window_days
        (decode_reward req.rules.reward))
    then some rules_refused
    else if str_eq req.name ""
    then some name_required
    else if not (is_one_of redirects req.redirect_type)
    then some redirect_refused
    else none
