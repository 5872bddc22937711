-- ===== src/Programs/Tiers.antt =====
-- The state and the handlers of web/packages/ui/src/components/tier-builder.tsx. A number is a count
-- of thousandths; `Number(v)` of an input is given as parsed, none where it is NaN or, for the upper
-- end, the input is empty.
pub mod Laws
use indica_ai.Prelude.{
  ℕ, zero, suc, ◌+◌, ◌*◌, ◌≡◌, Bool, true, false, Option, none, some, List, [], ◌∷◌, ◌++◌, String,
  get_or, last?, get_elem?, if◌then◌else◌, not,
}
use indica_ai.Prelude.Int.{ℤ, pos, ◌+ℤ◌}

abbrev pub num : ℕ → ℤ
num n = pos (n * 1000)

pub data TierRewardType : Type 0 where
  commission_pct commission_fixed product points : TierRewardType

-- `number | string`.
pub data Value : Type 0 where
  number : ℤ → Value
  text : String → Value

pub record Tier : Type 0 where
  pub from : ℤ
  pub to : Option ℤ
  pub reward_type : TierRewardType
  pub reward_value : Value

-- `Partial<Tier>`.
pub record Patch : Type 0 where
  pub from : Option ℤ
  pub to : Option (Option ℤ)
  pub reward_type : Option TierRewardType
  pub reward_value : Option Value

-- `{ ...t, ...patch }`.
abbrev apply_patch : Patch → Tier → Tier
apply_patch p t = record {
  from = get_or p.from t.from;
  to = get_or p.to t.to;
  reward_type = get_or p.reward_type t.reward_type;
  reward_value = get_or p.reward_value t.reward_value;
}

unfoldable pub update_tier : ℕ → Patch → List Tier → List Tier
update_tier i patch [] = []
update_tier zero patch (t ∷ ts) = apply_patch patch t ∷ ts
update_tier (suc i) patch (t ∷ ts) = t ∷ update_tier i patch ts

-- `last?.to ?? 0`.
abbrev next_from : Option Tier → ℤ
next_from none = num 0
next_from (some t) = get_or t.to (num 0)

abbrev added : ℤ → Tier
added from = record {
  from = from;
  to = some (from +ℤ num 5);
  reward_type = TierRewardType.commission_pct;
  reward_value = number (num 5);
}

unfoldable pub add_tier : List Tier → List Tier
add_tier tiers = tiers ++ added (next_from (last? tiers)) ∷ []

unfoldable pub remove_tier : ℕ → List Tier → List Tier
remove_tier i [] = []
remove_tier zero (t ∷ ts) = ts
remove_tier (suc i) (t ∷ ts) = t ∷ remove_tier i ts

-- An entry of the editor: the inputs of a row, and its two buttons.
pub data Edit : Type 0 where
  add : Edit
  remove : ℕ → Edit
  set_from : ℕ → Option ℤ → Edit
  set_to : ℕ → Option ℤ → Edit
  set_type : ℕ → TierRewardType → Edit
  set_number : ℕ → Option ℤ → Edit
  set_text : ℕ → String → Edit

abbrev no_change : Patch
no_change = record { from = none; to = none; reward_type = none; reward_value = none }

-- `e.target.value === "product" ? "" : 0`.
abbrev reset_value : TierRewardType → Value
reset_value TierRewardType.product = text ""
reset_value _ = number (num 0)

abbrev pub is_product : TierRewardType → Bool
is_product TierRewardType.product = true
is_product _ = false

-- The row of a product has the text input, any other row the number input.
abbrev has_input : Bool → Option Tier → Bool
has_input wants_text none = false
has_input true (some t) = is_product t.reward_type
has_input false (some t) = not (is_product t.reward_type)

abbrev set_value : Bool → Value → ℕ → List Tier → List Tier
set_value wants_text v i ts =
    if has_input wants_text (get_elem? ts i)
    then update_tier i (record (no_change) { reward_value = some v }) ts
    else ts

unfoldable pub edit : Edit → List Tier → List Tier
unfolding update_tier add_tier remove_tier
edit add ts = add_tier ts
edit (remove i) ts = remove_tier i ts
edit (set_from i n) ts = update_tier i (record (no_change) { from = some (get_or n (num 0)) }) ts
edit (set_to i n) ts = update_tier i (record (no_change) { to = some n }) ts
edit (set_type i k) ts =
    update_tier i (record (no_change) { reward_type = some k; reward_value = some (reset_value k) })
      ts
edit (set_number i n) ts = set_value false (number (get_or n (num 0))) i ts
edit (set_text i s) ts = set_value true (text s) i ts
