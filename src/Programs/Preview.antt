-- ===== src/Programs/Preview.antt =====
-- The preview of a program's rules, web/packages/ui/src/components/reward-rule-preview.tsx, and the rules that
-- web/apps/dashboard/app/(app)/programas/novo/page.tsx gives it. Numbers are left unformatted.
pub mod Laws
use indica_ai.Prelude.{
  ℕ, zero, suc, Bool, true, false, Option, none, some, List, [], ◌∷◌, map, String, str_eq, get_or,
  if◌then◌else◌,
}
use indica_ai.Prelude.Int.{ℤ, pos, negsuc}
use indica_ai.Programs.Tiers.{num, TierRewardType, Value, number, text, Tier}
use indica_ai.Programs.Form.{Preset, Metric, Trigger, Method, State, is_tiered, or_zero}

-- The reward as `describeReward` reads it.
pub record Lite : Type 0 where
  pub kind : String
  pub amount_brl : Option ℤ
  pub pct : Option ℤ
  pub max_pct : Option ℤ
  pub target : Option ℤ
  pub metric : Option String
  pub tiers : Option (List Tier)

pub record Rules : Type 0 where
  pub trigger : String
  pub reward : Lite
  pub method : String
  pub schedule : String
  pub min_amount_brl : Option ℤ

abbrev metric_text : Metric → String
metric_text Metric.referrals_count = "referrals_count"
metric_text Metric.sales_count = "sales_count"
metric_text Metric.sale_amount = "sale_amount"

abbrev pub trigger_text : Trigger → String
trigger_text Trigger.sale_confirmed = "sale.confirmed"
trigger_text Trigger.payment_confirmed = "payment.confirmed"
trigger_text Trigger.manual = "manual"

abbrev method_text : Method → String
method_text Method.pix = "pix"
method_text Method.credit = "credit"
method_text Method.manual = "manual"

abbrev no_reward : Lite
no_reward = record {
  kind = "";
  amount_brl = none;
  pct = none;
  max_pct = none;
  target = none;
  metric = none;
  tiers = none;
}

-- `reward` of the page.
unfoldable pub reward : State → Lite
reward s =
    if is_tiered s.preset
    then record no_reward {
      kind = "tiered";
      metric = some (metric_text s.metric);
      tiers = some s.tiers;
    }
    else record no_reward { kind = "flexible_split"; max_pct = some s.flex_max_pct }

-- `rulesPreview`.
unfoldable pub rules_preview : State → Rules
unfolding reward
rules_preview s = record {
  trigger = trigger_text s.quando_pagar;
  reward = reward s;
  method = method_text s.como_pagar;
  schedule = "on_approval";
  min_amount_brl = some (or_zero s.valor_minimo);
}

-- What a tier promises, and for which range.
pub data Label : Type 0 where
  percentage per_sale product points : Value → Label

pub record Line : Type 0 where
  pub from : ℤ
  pub to : Option ℤ
  pub metric : String
  pub label : Label

-- `t.reward_value || "—"`.
abbrev value_or_dash : Value → Value
value_or_dash (text v) = if str_eq v "" then text "—" else text v
value_or_dash (number (pos zero)) = text "—"
value_or_dash (number n) = number n

abbrev pub label_of : TierRewardType → Value → Label
label_of TierRewardType.commission_pct v = Label.percentage v
label_of TierRewardType.commission_fixed v = Label.per_sale v
label_of TierRewardType.product v = Label.product (value_or_dash v)
label_of TierRewardType.points v = Label.points v

abbrev pub describe_tier : String → Tier → Line
describe_tier metric t = record {
  from = t.from;
  to = t.to;
  metric = metric;
  label = label_of t.reward_type t.reward_value;
}

abbrev metric_label : Option String → String
metric_label none = "indicações"
metric_label (some m) =
    if str_eq m "sales_count"
    then "vendas"
    else if str_eq m "sale_amount"
    then "R$ em vendas"
    else "indicações"

-- The sentences of `describeReward`.
pub data Description : Type 0 where
  lines : List Line → Description
  fixed : (amount : ℤ) (method : String) → Description
  percent split_up_to goal cashback : ℤ → Description
  earns_points custom : Description

unfoldable pub describe_reward : Rules → Description
describe_reward rules =
    let r = rules.reward in
    if str_eq r.kind "tiered"
    then lines (map (describe_tier (metric_label r.metric)) (get_or r.tiers []))
    else if str_eq r.kind "commission_fixed"
    then fixed (get_or r.amount_brl (num 0))
        (if str_eq rules.method "pix" then "Pix" else rules.method)
    else if str_eq r.kind "commission_pct"
    then percent (get_or r.pct (num 0))
    else if str_eq r.kind "flexible_split"
    then split_up_to (get_or r.max_pct (num 0))
    else if str_eq r.kind "goal_based"
    then goal (get_or r.target (num 0))
    else if str_eq r.kind "points"
    then earns_points
    else if str_eq r.kind "cashback"
    then cashback (get_or r.pct (num 0))
    else custom

abbrev method_label : String → String
method_label m =
    if str_eq m "pix"
    then "Pix"
    else if str_eq m "credit"
    then "crédito interno"
    else if str_eq m "coupon"
    then "cupom"
    else if str_eq m "physical"
    then "brinde"
    else m

abbrev schedule_label : String → String
schedule_label s =
    if str_eq s "on_approval"
    then "automático na aprovação"
    else if str_eq s "manual"
    then "manual"
    else if str_eq s "monthly"
    then "mensal"
    else s

-- `{min && (<p>…</p>)}`: of 0 React shows the number itself.
pub data Minimum : Type 0 where
  nothing bare_zero : Minimum
  amount : ℤ → Minimum

abbrev pub minimum : Option ℤ → Minimum
minimum none = nothing
minimum (some (pos zero)) = bare_zero
minimum (some n) = amount n

pub record View : Type 0 where
  pub description : Description
  pub condition : String
  pub payout : String × String
  pub minimum : Minimum

unfoldable pub view : Rules → View
unfolding describe_reward
view rules = record {
  description = describe_reward rules;
  condition = if str_eq rules.trigger "sale.confirmed" then "venda confirmada" else rules.trigger;
  payout = (method_label rules.method, schedule_label rules.schedule);
  minimum = minimum rules.min_amount_brl;
}
