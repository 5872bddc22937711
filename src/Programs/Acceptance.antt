-- ===== src/Programs/Acceptance.antt =====
-- The forms of web/apps/dashboard/app/(app)/programas/novo/page.tsx at the back end.
use indica_ai.Prelude.{
  ℕ, ◌%◌, ◌≤◌, ◌<◌, ◌≡◌, ◌≢◌, ◌↔◌, refl, Bool, true, false, Option, none, some, str_eq, arith,
  Bool-cases, inl, inr, sym, ap, ◌∙◌, eq_iff, if◌then◌else◌, String,
}
use indica_ai.Prelude.Int.{ℤ, pos, negsuc, pos_part}
use indica_ai.Js.Strings.{trim}
use indica_ai.Programs.Tiers.{num}
use indica_ai.Programs.Form.{
  Preset, Trigger, Destination, State, Reward, build_reward, build_backend_rules,
  handle_preset_change, default_tiers_for, window_days,
}
use indica_ai.Programs.Form.Submit.{redirect_type, complaint, build_request, is_blank}
use indica_ai.Programs.Server.{
  is_one_of, redirects, is_unparsed, decode_rules, RewardConfig, rules_refused, is_reward_refused,
  is_refused, decode_reward, create, max_int,
}

-- Greater than zero, in thousandths.
abbrev pub IsPositive : ℤ → Type 0
IsPositive n = 0 < pos_part n

abbrev pub IsPercent : ℤ → Type 0
IsPercent n = (0 < pos_part n) × (pos_part n ≤ 100000)

abbrev pub IsCount : ℤ → Type 0
IsCount n = (0 < pos_part n) × ((pos_part n % 1000 ≡ 0) × (pos_part n ≤ max_int))

-- The rewards that are in range.
abbrev pub IsInRange : Reward → Type 0
IsInRange (Reward.flexible_split n) = IsPercent n
IsInRange (Reward.recurring_commission n) = IsPositive n
IsInRange (Reward.goal_based n) = IsCount n
IsInRange (Reward.commission_fixed n) = IsPositive n
IsInRange (Reward.commission_pct n) = IsPercent n

-- What the two later steps of `ParseRuleSchema` say of a reward.
abbrev refuses : Option RewardConfig → Bool
refuses none = true
refuses (some r) = is_reward_refused r

refuses_iff : (r : Reward) → (refuses (decode_reward r) ≡ false) ↔ IsInRange r
unfolding decode_reward is_reward_refused
refuses_iff (Reward.flexible_split (pos n)) = ground arith
refuses_iff (Reward.flexible_split (negsuc n)) = ground arith
refuses_iff (Reward.recurring_commission (pos n)) = ground arith
refuses_iff (Reward.recurring_commission (negsuc n)) = ground arith
refuses_iff (Reward.goal_based (pos n)) = ground arith
refuses_iff (Reward.goal_based (negsuc n)) = ground arith
refuses_iff (Reward.commission_fixed (pos n)) = ground arith
refuses_iff (Reward.commission_fixed (negsuc n)) = ground arith
refuses_iff (Reward.commission_pct (pos n)) = ground arith
refuses_iff (Reward.commission_pct (negsuc n)) = ground arith

unparsed_iff :
    (t : Trigger) (days : ℕ) (o : Option RewardConfig)
    → (is_unparsed (decode_rules t days o) ≡ false) ↔ ((t ≢ Trigger.manual) × (refuses o ≡ false))
unfolding is_refused
unparsed_iff t days none = ground arith
unparsed_iff Trigger.sale_confirmed days (some r) = ground arith
unparsed_iff Trigger.payment_confirmed days (some r) = ground arith
unparsed_iff Trigger.manual days (some r) = ground arith

absurd_blank : is_blank "" ≡ false → ⊥
unfolding trim
absurd_blank h = ground arith

refused_iff : (b : Bool) → ((if b then some rules_refused else none) ≡ none) ↔ (b ≡ false)
refused_iff true = ground arith
refused_iff false = ground arith

iff_chain : {A B C D E : Type 0} → A ↔ B → B ↔ (C × D) → D ↔ E → A ↔ (C × E)
iff_chain (ab, ba) (bcd, cdb) (de, ed) =
    (λ a. let (c, d) = bcd (ab a) in (c, de d), λ (c, e). ba (cdb (c, ed e)))

blank_or_named : (v : String) → is_blank v ≡ false → str_eq v "" ≡ false
unfolding trim
blank_or_named v h = elim (Bool-cases (str_eq v "")) [
  | inl e ↦ elim (absurd_blank (sym (ap is_blank ((eq_iff v "").0 e)) ∙ h)) [ ]
  | inr e ↦ e
]

named : (s : State) → complaint s ≡ none → is_blank s.nome ≡ false
unfolding complaint
named s h = ground arith

redirect_known : (d : Destination) → is_one_of redirects (redirect_type d) ≡ true
redirect_known Destination.whatsapp = refl
redirect_known Destination.site = refl
redirect_known Destination.landing = refl

-- A form of the new-program page about which `publish` has no complaint is accepted by the back end
-- exactly when its trigger is not the manual one and the reward built from it is in range: a
-- percentage above 0 and up to 100 (a recurring one has no upper limit), an amount above 0, or a
-- goal that is a whole number above 0 and fits an `int`.
pub create-build_request_iff :
    (s : State)
    → complaint s ≡ none
    → (create (build_request s) ≡ none)
      ↔ ((s.quando_pagar ≢ Trigger.manual) × IsInRange (build_reward s))
unfolding create build_request build_backend_rules
create-build_request_iff s h =
    rw (blank_or_named s.nome (named s h), redirect_known s.destino)
      (iff_chain (refused_iff _)
        (unparsed_iff s.quando_pagar (window_days s.janela_atribuicao)
          (decode_reward (build_reward s)))
        (refuses_iff (build_reward s)))

trigger_kept : (p : Preset) (s : State) → (handle_preset_change p s).quando_pagar ≡ s.quando_pagar
unfolding handle_preset_change
trigger_kept Preset.flexible_split s = refl
trigger_kept Preset.commission s = refl
trigger_kept Preset.recurring s = refl
trigger_kept Preset.goal s = refl

manual_refused :
    (days : ℕ) (o : Option RewardConfig) → is_unparsed (decode_rules Trigger.manual days o) ≡ true
unfolding is_refused
manual_refused days none = refl
manual_refused days (some r) = refl

default_IsInRange :
    (p : Preset) (s : State)
    → s.flex_max_pct ≡ num 20
    → IsInRange (build_reward (handle_preset_change p s))
unfolding build_reward handle_preset_change default_tiers_for
default_IsInRange Preset.commission s h = omega arith
default_IsInRange Preset.recurring s h = omega arith
default_IsInRange Preset.goal s h = omega arith
default_IsInRange Preset.flexible_split s h = rw h (omega arith)

-- Choosing a preset, while the ceiling of the split is 20 %, the trigger is not the manual one and
-- the page has no complaint afterwards, makes a program that the back end accepts.
pub create-handle_preset_change :
    (p : Preset) (s : State)
    → s.flex_max_pct ≡ num 20
    → s.quando_pagar ≢ Trigger.manual
    → complaint (handle_preset_change p s) ≡ none
    → create (build_request (handle_preset_change p s)) ≡ none
create-handle_preset_change p s flex trigger h =
    (create-build_request_iff (handle_preset_change p s) h).1
      ((λ e. trigger (sym (trigger_kept p s) ∙ e)), default_IsInRange p s flex)

-- A form with the manual trigger is refused by the back end for its rules, whatever else it says.
pub create-manual :
    (s : State) → s.quando_pagar ≡ Trigger.manual → create (build_request s) ≡ some rules_refused
unfolding create build_request build_backend_rules
create-manual s h =
    rw (h, manual_refused (window_days s.janela_atribuicao) (decode_reward (build_reward s))) refl
