-- ===== src/Programs/Tiers/Laws.antt =====
-- Lemmas about the entries of web/packages/ui/src/components/tier-builder.tsx.
use indica_ai.Prelude.{
  ℕ, zero, suc, ◌≡◌, refl, ap, Bool, not, true, false, Option, none, some, List, [], ◌∷◌, get_or,
  is_some, last?, All, All-concat, Bool-cases, get_elem?, sym, ◌∙◌, inl, inr, arith,
}
use indica_ai.Prelude.Int.{ℤ}
use indica_ai.Programs.Tiers.{
  has_input, set_value, is_product, num, TierRewardType, Value, number, text, Tier, Patch,
  apply_patch, update_tier, add_tier, remove_tier, Edit, add, remove, set_from, set_to, set_type,
  set_number, set_text, reset_value, edit,
}

abbrev pub IsNumber : Value → Type 0
IsNumber (number n) = Unit
IsNumber (text s) = ⊥

abbrev pub IsText : Value → Type 0
IsText (number n) = ⊥
IsText (text s) = Unit

abbrev pub Fits : TierRewardType → Value → Type 0
Fits TierRewardType.product v = IsText v
Fits _ v = IsNumber v

-- A product has a text for its value, any other reward a number.
abbrev pub IsTyped : Tier → Type 0
IsTyped t = Fits t.reward_type t.reward_value

reset_value-Fits : (k : TierRewardType) → Fits k (reset_value k)
reset_value-Fits TierRewardType.product = tt
reset_value-Fits _ = tt

remove_tier-All : (i : ℕ) (ts : List Tier) → All IsTyped ts → All IsTyped (remove_tier i ts)
unfolding remove_tier
remove_tier-All i [] h = tt
remove_tier-All zero (t ∷ ts) (p, h) = h
remove_tier-All (suc i) (t ∷ ts) (p, h) = (p, remove_tier-All i ts h)

-- A patch that keeps the tier that it is given typed.
update_tier-All :
    (p : Patch) (i : ℕ) (ts : List Tier)
    → ((t : Tier) → get_elem? ts i ≡ some t → IsTyped t → IsTyped (apply_patch p t))
    → All IsTyped ts
    → All IsTyped (update_tier i p ts)
unfolding update_tier
update_tier-All p i [] k h = tt
update_tier-All p zero (t ∷ ts) k (q, h) = (k t refl q, h)
update_tier-All p (suc i) (t ∷ ts) k (q, h) = (q, update_tier-All p i ts k h)

-- The value that an input of this kind gives.
abbrev IsInput : Bool → Value → Type 0
IsInput true v = IsText v
IsInput false v = IsNumber v

Fits-text : (k : TierRewardType) (v : Value) → is_product k ≡ true → IsText v → Fits k v
Fits-text TierRewardType.product v e h = h
Fits-text TierRewardType.commission_pct v e h = ground arith
Fits-text TierRewardType.commission_fixed v e h = ground arith
Fits-text TierRewardType.points v e h = ground arith

Fits-number : (k : TierRewardType) (v : Value) → not (is_product k) ≡ true → IsNumber v → Fits k v
Fits-number TierRewardType.product v e h = ground arith
Fits-number TierRewardType.commission_pct v e h = h
Fits-number TierRewardType.commission_fixed v e h = h
Fits-number TierRewardType.points v e h = h

input-Fits :
    (b : Bool) (t : Tier) (v : Value)
    → has_input b (some t) ≡ true
    → IsInput b v
    → Fits t.reward_type v
input-Fits true t v e h = Fits-text t.reward_type v e h
input-Fits false t v e h = Fits-number t.reward_type v e h

set_value-All :
    (b : Bool) (v : Value) (i : ℕ) (ts : List Tier)
    → IsInput b v
    → All IsTyped ts
    → All IsTyped (set_value b v i ts)
set_value-All b v i ts hv h = elim (Bool-cases (has_input b (get_elem? ts i))) [
  | inl e ↦
      rw e
        (update_tier-All _ i ts (λ t at q. input-Fits b t v (ap (has_input b) (sym at) ∙ e) hv) h)
  | inr e ↦ rw e h
]

added-All : (ts : List Tier) → All IsTyped ts → All IsTyped (add_tier ts)
unfolding add_tier
added-All ts h = All-concat IsTyped ts h tt

-- Every entry of the tier editor keeps each tier's value of the kind that its reward type calls
-- for: a text for a product, a number for any other reward.
pub edit-All : (e : Edit) (ts : List Tier) → All IsTyped ts → All IsTyped (edit e ts)
unfolding edit
edit-All add ts h = added-All ts h
edit-All (remove i) ts h = remove_tier-All i ts h
edit-All (set_from i n) ts h = update_tier-All _ i ts (λ t at q. q) h
edit-All (set_to i n) ts h = update_tier-All _ i ts (λ t at q. q) h
edit-All (set_type i k) ts h = update_tier-All _ i ts (λ t at q. reset_value-Fits k) h
edit-All (set_number i n) ts h = set_value-All false (number (get_or n (num 0))) i ts tt h
edit-All (set_text i s) ts h = set_value-All true (text s) i ts tt h

-- Every tier but the first begins where the one before it ends.
pub data IsChained : List Tier → Type 0 where
  none_there : IsChained []
  single : {t : Tier} → IsChained (t ∷ [])
  chain :
      {t u : Tier} {ts : List Tier}
      → t.to ≡ some u.from
      → IsChained (u ∷ ts)
      → IsChained (t ∷ u ∷ ts)

-- A last tier, where there is one, that has an end.
abbrev pub IsClosed : Option Tier → Type 0
IsClosed none = Unit
IsClosed (some t) = is_some t.to ≡ true

get_or-some : (o : Option ℤ) (d : ℤ) → is_some o ≡ true → o ≡ some (get_or o d)
get_or-some none d h = ground arith
get_or-some (some n) d h = refl

-- Adding a tier to tiers that each begin where the one before ends, the last of which is closed, or
-- to none, keeps the chain.
pub add_tier-IsChained :
    (ts : List Tier) → IsChained ts → IsClosed (last? ts) → IsChained (add_tier ts)
unfolding add_tier
add_tier-IsChained [] c h = single
add_tier-IsChained (t ∷ []) c h = chain (get_or-some t.to (num 0) h) single
add_tier-IsChained (t ∷ u ∷ ts) (chain e c) h = chain e (add_tier-IsChained (u ∷ ts) c h)
