-- ===== src/Programs/Form.antt =====
-- The state and the handlers of web/apps/dashboard/app/(app)/programas/novo/page.tsx. As in the tier
-- editor, an amount is a count of thousandths, and `Number` of an input is given as parsed.
pub mod Submit
pub mod Laws
use indica_ai.Prelude.{
  ℕ, zero, suc, Bool, true, false, Option, none, some, List, [], ◌∷◌, String, get_elem?, last?,
  find,
}
use indica_ai.Prelude.Int.{ℤ}
use indica_ai.Programs.Tiers.{
  num, TierRewardType, Value, number, text, Tier, Edit, is_product, edit,
}

pub data Preset : Type 0 where
  commission recurring goal flexible_split : Preset

pub data Metric : Type 0 where
  referrals_count sales_count sale_amount : Metric

-- The options of "Quando pagar" and "Como pagar".
pub data Trigger : Type 0 where
  sale_confirmed payment_confirmed manual : Trigger

pub data Method : Type 0 where
  pix credit manual : Method

-- The options of "Janela de atribuição".
pub data Window : Type 0 where
  days_7 days_15 days_30 days_60 days_90 : Window

pub data Destination : Type 0 where
  whatsapp site landing : Destination

abbrev tier : ℤ → Option ℤ → TierRewardType → Value → Tier
tier from to reward_type reward_value = record {
  from = from;
  to = to;
  reward_type = reward_type;
  reward_value = reward_value;
}

unfoldable pub default_tiers_for : Preset → List Tier
default_tiers_for Preset.commission =
    tier (num 0) none TierRewardType.commission_pct (number (num 10)) ∷ []
default_tiers_for Preset.recurring =
    tier (num 0) none TierRewardType.commission_pct (number (num 15)) ∷ []
default_tiers_for Preset.goal =
    tier (num 0) (some (num 4)) TierRewardType.commission_fixed (number (num 0))
    ∷ tier (num 5) none TierRewardType.product (text "Brinde")
    ∷ []
default_tiers_for Preset.flexible_split = []

abbrev default_metric_for : Preset → Metric
default_metric_for Preset.goal = Metric.referrals_count
default_metric_for Preset.commission = Metric.sales_count
default_metric_for Preset.recurring = Metric.sales_count
default_metric_for Preset.flexible_split = Metric.referrals_count

pub record State : Type 0 where
  pub submitting : Bool
  pub nome : String
  pub descricao : String
  pub preset : Preset
  pub metric : Metric
  pub tiers : List Tier
  pub flex_max_pct : ℤ
  pub quando_pagar : Trigger
  pub como_pagar : Method
  pub valor_minimo : Option ℤ
  pub janela_atribuicao : Window
  pub destino : Destination
  pub whatsapp_numero : String
  pub site_url : String

unfoldable pub opened : State
unfolding default_tiers_for
opened = record {
  submitting = false;
  nome = "";
  descricao = "";
  preset = Preset.commission;
  metric = default_metric_for Preset.commission;
  tiers = default_tiers_for Preset.commission;
  flex_max_pct = num 20;
  quando_pagar = Trigger.sale_confirmed;
  como_pagar = Method.pix;
  valor_minimo = some (num 50);
  janela_atribuicao = Window.days_30;
  destino = Destination.whatsapp;
  whatsapp_numero = "";
  site_url = "";
}

abbrev pub is_tiered : Preset → Bool
is_tiered Preset.flexible_split = false
is_tiered _ = true

unfoldable pub handle_preset_change : Preset → State → State
unfolding default_tiers_for
handle_preset_change Preset.flexible_split s = record s { preset = Preset.flexible_split }
handle_preset_change p s = record s {
  preset = p;
  tiers = default_tiers_for p;
  metric = default_metric_for p;
}

-- The object that `buildReward` makes; `counting` of a goal is always per partner, on closed leads.
pub data Reward : Type 0 where
  flexible_split : (max_pct : ℤ) → Reward
  recurring_commission : (pct : ℤ) → Reward
  goal_based : (target : ℤ) → Reward
  commission_fixed : (amount_brl : ℤ) → Reward
  commission_pct : (pct : ℤ) → Reward

-- `schema_version` is always 1, the schedule "on_approval", and `limits` is empty.
pub record Rules : Type 0 where
  pub trigger : Trigger
  pub attribution_window_days : ℕ
  pub reward : Reward
  pub method : Method
  pub min_amount_brl : ℤ

-- `typeof first?.reward_value === "number" ? first.reward_value : 0`.
abbrev pub number_of : Option Tier → ℤ
number_of none = num 0
number_of (some t) = elim t.reward_value [ number n ↦ n | text s ↦ num 0 ]

-- `tiers.find(...) ?? tiers[tiers.length - 1]`.
abbrev pub goal_tier : List Tier → Option Tier
goal_tier ts = elim (find (λ t. is_product t.reward_type) ts) [ some t ↦ some t | none ↦ last? ts ]

abbrev target_of : Option Tier → ℤ
target_of none = num 1
target_of (some t) = t.from

abbrev pub commission_of : Option Tier → Reward
commission_of none = Reward.commission_pct (num 0)
commission_of (some t) = elim t.reward_type [
  | TierRewardType.commission_fixed ↦ Reward.commission_fixed (number_of (some t))
  | _ ↦ Reward.commission_pct (number_of (some t))
]

unfoldable pub build_reward : State → Reward
build_reward s = elim s.preset [
  | Preset.flexible_split ↦ Reward.flexible_split s.flex_max_pct
  | Preset.recurring ↦ Reward.recurring_commission (number_of (get_elem? s.tiers 0))
  | Preset.goal ↦ Reward.goal_based (target_of (goal_tier s.tiers))
  | Preset.commission ↦ commission_of (get_elem? s.tiers 0)
]

abbrev pub window_days : Window → ℕ
window_days Window.days_7 = 7
window_days Window.days_15 = 15
window_days Window.days_30 = 30
window_days Window.days_60 = 60
window_days Window.days_90 = 90

-- `Number(v) || 0`.
abbrev pub or_zero : Option ℤ → ℤ
or_zero none = num 0
or_zero (some n) = n

unfoldable pub build_backend_rules : State → Rules
unfolding build_reward
build_backend_rules s = record {
  trigger = s.quando_pagar;
  attribution_window_days = window_days s.janela_atribuicao;
  reward = build_reward s;
  method = s.como_pagar;
  min_amount_brl = or_zero s.valor_minimo;
}

-- The inputs of the page.
pub data Input : Type 0 where
  nome descricao whatsapp_numero site_url : String → Input
  preset : Preset → Input
  metric : Metric → Input
  tiers : Edit → Input
  flex_max_pct valor_minimo : Option ℤ → Input
  quando_pagar : Trigger → Input
  como_pagar : Method → Input
  janela_atribuicao : Window → Input
  destino : Destination → Input

unfoldable pub change : Input → State → State
unfolding handle_preset_change
change (Input.nome v) s = record s { nome = v }
change (Input.descricao v) s = record s { descricao = v }
change (Input.whatsapp_numero v) s = record s { whatsapp_numero = v }
change (Input.site_url v) s = record s { site_url = v }
change (Input.preset v) s = handle_preset_change v s
change (Input.metric v) s = record s { metric = v }
change (Input.tiers e) s = record s { tiers = edit e s.tiers }
change (Input.flex_max_pct v) s = record s { flex_max_pct = or_zero v }
change (Input.valor_minimo v) s = record s { valor_minimo = v }
change (Input.quando_pagar v) s = record s { quando_pagar = v }
change (Input.como_pagar v) s = record s { como_pagar = v }
change (Input.janela_atribuicao v) s = record s { janela_atribuicao = v }
change (Input.destino v) s = record s { destino = v }
