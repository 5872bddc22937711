-- ===== src/Partner/Split.antt =====
-- The flexible split of web/apps/partner/app/(app)/parceiro/indicacoes/nova/page.tsx: its presets, its
-- state and the effect that keeps the shares; and the back end's `FlexibleSplitEvaluator`.
--
-- A ceiling is a count of thousandths of a percent, a share one of half-thousandths, so that half a
-- ceiling is exact. `Number(v)` of an input is given as parsed, in half-thousandths.
pub mod Laws
use indica_ai.Prelude.{
  ℕ, ◌+◌, ◌*◌, Bool, true, false, ◌&&◌, not, Option, none, some, if◌then◌else◌, get_or,
}
use indica_ai.Prelude.Int.{ℤ, pos, ◌+ℤ◌, ltb_ℤ}
use indica_ai.Partner.Api.{SplitChoice}

pub data PresetKey : Type 0 where
  all_commission half all_discount : PresetKey

-- `build` of each entry of `presets`, for a ceiling.
unfoldable pub build : PresetKey → ℤ → SplitChoice
build all_commission m = record { commission_pct = m +ℤ m; discount_pct = pos 0 }
build half m = record { commission_pct = m; discount_pct = m }
build all_discount m = record { commission_pct = pos 0; discount_pct = m +ℤ m }

-- The part of the page's state that the split is about. `ceiling` is `maxPct`, and `none` stands for a
-- program without a flexible split, or one that is not loaded.
pub record State : Type 0 where
  pub ceiling : Option ℤ
  pub preset_key : PresetKey
  pub custom_mode : Bool
  pub commission_pct : ℤ
  pub discount_pct : ℤ

unfoldable pub opened : State
opened = record {
  ceiling = none;
  preset_key = all_commission;
  custom_mode = false;
  commission_pct = pos 0;
  discount_pct = pos 0;
}

abbrev choose : SplitChoice → State → State
choose c s = record s { commission_pct = c.commission_pct; discount_pct = c.discount_pct }

abbrev synced : Bool → Option ℤ → State → State
synced custom none s = s
synced true (some m) s = s
synced false (some m) s = choose (build s.preset_key m) s

-- The effect, which runs after an event that sets one of its dependencies.
unfoldable pub sync : State → State
unfolding build
sync s = synced s.custom_mode s.ceiling s

pub data Event : Type 0 where
  loaded : (ceiling : Option ℤ) → Event
  clicked_preset : PresetKey → Event
  clicked_custom : Event
  typed_commission : Option ℤ → Event
  typed_discount : Option ℤ → Event

-- The inputs are on the page in the custom mode of a flexible split.
abbrev has_inputs : State → Bool
has_inputs s = elim s.ceiling [ none ↦ false | some m ↦ s.custom_mode ]

unfoldable pub step : Event → State → State
unfolding sync
step (loaded c) s = sync (record s { ceiling = c })
step (clicked_preset k) s = sync (record s { custom_mode = false; preset_key = k })
step clicked_custom s = sync (record s { custom_mode = true })
step (typed_commission n) s =
    if has_inputs s then record s { commission_pct = get_or n (pos 0) } else s
step (typed_discount n) s = if has_inputs s then record s { discount_pct = get_or n (pos 0) } else s

abbrev pub total_split : SplitChoice → ℤ
total_split c = c.commission_pct +ℤ c.discount_pct

-- `totalSplit > maxPct + 0.001`.
unfoldable pub is_over : ℤ → SplitChoice → Bool
is_over m c = ltb_ℤ (m +ℤ m +ℤ pos 2) (total_split c)

abbrev pub choice_of : State → SplitChoice
choice_of s = record { commission_pct = s.commission_pct; discount_pct = s.discount_pct }

unfoldable pub split_invalid : State → Bool
unfolding is_over
split_invalid s = elim s.ceiling [ none ↦ false | some m ↦ is_over m (choice_of s) ]

unfoldable pub computed_split : State → Option SplitChoice
computed_split s = elim s.ceiling [ none ↦ none | some m ↦ some (choice_of s) ]

-- `totalPct > *rule.Reward.MaxPct` of internal/domain/rules/evaluators.go, at which the reward is an
-- error.
unfoldable pub is_refused : ℤ → SplitChoice → Bool
is_refused m c = ltb_ℤ (m +ℤ m) (total_split c)
