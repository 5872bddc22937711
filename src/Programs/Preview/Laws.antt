-- ===== src/Programs/Preview/Laws.antt =====
-- What the preview of web/packages/ui/src/components/reward-rule-preview.tsx promises, beside what the page sends.
use indica_ai.Prelude.{
  ◌≤◌, ◌≡◌, length, arith, String, ◌↔◌, ◌⊎◌, inl, inr, refl, sym, subst, ap, get_elem?, Option,
  none, ◌∙◌, some, List, [], ◌∷◌, map, All,
}
use indica_ai.Prelude.Int.{ℤ}
use indica_ai.Programs.Tiers.{num, TierRewardType, Value, number, text, Tier}
use indica_ai.Programs.Tiers.Laws.{Fits, IsTyped}
use indica_ai.Programs.Form.{Preset, State, Reward, commission_of, build_reward}
use indica_ai.Programs.Preview.{
  Label, label_of, describe_tier, Description, lines, describe_reward, rules_preview, reward,
}

-- What is promised, and for which counts. From 0 without an end it is every count, whatever is
-- counted.
pub record Promise : Type 0 where
  pub from : ℤ
  pub to : Option ℤ
  pub label : Label

abbrev for_all : Label → Promise
for_all l = record { from = num 0; to = none; label = l }

-- The promises of the preview's lines, and that of a commission as it is sent: it has no range.
abbrev pub promises : Description → List Promise
promises (lines ls) = map (λ l. record { from = l.from; to = l.to; label = l.label }) ls
promises d = []

abbrev pub sent : Reward → List Promise
sent (Reward.commission_pct n) = for_all (Label.percentage (number n)) ∷ []
sent (Reward.commission_fixed n) = for_all (Label.per_sale (number n)) ∷ []
sent r = []

abbrev pub IsCommission : Tier → Type 0
IsCommission t =
    (t.reward_type ≡ TierRewardType.commission_pct)
    ⊎ (t.reward_type ≡ TierRewardType.commission_fixed)

-- A commission for every count.
abbrev pub IsFlat : Tier → Type 0
IsFlat t = IsCommission t × (t.from ≡ num 0) × (t.to ≡ none)

abbrev promise_of : Tier → Promise
promise_of t = record { from = t.from; to = t.to; label = label_of t.reward_type t.reward_value }

abbrev Matches : Tier → Type 0
Matches t = (promise_of t ∷ [] ≡ sent (commission_of (some t))) ↔ IsFlat t

head_from : List Promise → ℤ
head_from [] = num 0
head_from (p ∷ ps) = p.from

head_to : List Promise → Option ℤ
head_to [] = none
head_to (p ∷ ps) = p.to

-- A single promise is for every count exactly when its range is.
flat :
    (from : ℤ) (to : Option ℤ) (l : Label)
    → (record { from = from; to = to; label = l } ∷ [] ≡ for_all l ∷ [])
      ↔ ((from ≡ num 0) × (to ≡ none))
unfolding head_from head_to
flat from to l = (
  λ e. (ap head_from e, ap head_to e),
  λ (f, t).
      ap (λ x. record { from = x; to = to; label = l } ∷ []) f
      ∙ ap (λ x. record { from = num 0; to = x; label = l } ∷ []) t,
)

no_product :
    (TierRewardType.product ≡ TierRewardType.commission_pct)
      ⊎ (TierRewardType.product ≡ TierRewardType.commission_fixed)
    → ⊥
no_product (inl e) = cc
no_product (inr e) = cc

no_points :
    (TierRewardType.points ≡ TierRewardType.commission_pct)
      ⊎ (TierRewardType.points ≡ TierRewardType.commission_fixed)
    → ⊥
no_points (inl e) = cc
no_points (inr e) = cc

single :
    (from : ℤ) (to : Option ℤ) (k : TierRewardType) (v : Value)
    → Fits k v
    → Matches (record { from = from; to = to; reward_type = k; reward_value = v })
single from to TierRewardType.commission_pct (text x) h = elim h [ ]
single from to TierRewardType.commission_fixed (text x) h = elim h [ ]
single from to TierRewardType.product (number n) h = elim h [ ]
single from to TierRewardType.points (text x) h = elim h [ ]
single from to TierRewardType.commission_pct (number n) h = (
  λ e. let (f, t) = (flat from to _).0 e in (inl refl, f, t),
  λ (c, f, t). (flat from to _).1 (f, t),
)
single from to TierRewardType.commission_fixed (number n) h = (
  λ e. let (f, t) = (flat from to _).0 e in (inr refl, f, t),
  λ (c, f, t). (flat from to _).1 (f, t),
)
single from to TierRewardType.product (text x) h = (λ e. cc, λ (c, f, t). absurd (no_product c))
single from to TierRewardType.points (number n) h = (λ e. cc, λ (c, f, t). absurd (no_points c))

head_eq : (t u : Tier) → t ∷ [] ≡ u ∷ [] → t ≡ u
head_eq t u e = cc

length-sent : (r : Reward) → length (sent r) ≤ 1
length-sent (Reward.flexible_split n) = omega arith
length-sent (Reward.recurring_commission n) = omega arith
length-sent (Reward.goal_based n) = omega arith
length-sent (Reward.commission_fixed n) = omega arith
length-sent (Reward.commission_pct n) = omega arith

promises_iff :
    (ts : List Tier)
    → All IsTyped ts
    → (map promise_of ts ≡ sent (commission_of (get_elem? ts 0)))
      ↔ ((t : Tier) × (ts ≡ t ∷ []) × IsFlat t)
promises_iff [] h = (λ e. cc, λ (t, e, c). cc)
promises_iff (t ∷ []) (f, h) =
    let m = single t.from t.to t.reward_type t.reward_value f in
    (λ e. (t, refl, m.0 e), λ (u, e, c). m.1 (subst IsFlat (sym (head_eq t u e)) c))
promises_iff (t ∷ u ∷ ts) h = (
  λ e.
      let l = length-sent (commission_of (some t)) in
      let f = ap length e in absurd (omega (arith, l, f)),
  λ (v, e, c). cc,
)

promises_of_lines :
    (metric : String) (ts : List Tier)
    → promises (lines (map (describe_tier metric) ts)) ≡ map promise_of ts
promises_of_lines metric [] = refl
promises_of_lines metric (t ∷ ts) = ap (λ ls. promise_of t ∷ ls) (promises_of_lines metric ts)

lines_of :
    (s : State)
    → s.preset ≡ Preset.commission
    → promises (describe_reward (rules_preview s)) ≡ map promise_of s.tiers
unfolding describe_reward rules_preview reward
lines_of s p = rw p (promises_of_lines _ s.tiers)

-- With the commission preset and tiers whose values are of the kind that their rewards call for,
-- the preview of the new-program page promises exactly the reward that is sent, for the same
-- counts, if and only if there is one tier, its range is from 0 without an end, and its reward is a
-- percentage or a fixed commission.
pub describe_reward-build_reward :
    (s : State)
    → s.preset ≡ Preset.commission
    → All IsTyped s.tiers
    → (promises (describe_reward (rules_preview s)) ≡ sent (build_reward s))
      ↔ ((t : Tier) × (s.tiers ≡ t ∷ []) × IsFlat t)
unfolding build_reward
describe_reward-build_reward s p h =
    let e = lines_of s p in
    let f : build_reward s ≡ commission_of (get_elem? s.tiers 0) = rw p refl in
    rw (e, f) (promises_iff s.tiers h)
