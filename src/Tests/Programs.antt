-- ===== src/Tests/Programs.antt =====
-- Forms of the new-program page.
use indica_ai.Prelude.{◌≡◌, ◌≢◌, ◌↔◌, refl, true, none, some, [], ◌∷◌, String, is_some, All, last?}
use indica_ai.Prelude.Int.{◌+ℤ◌}
use indica_ai.Js.Strings.{trim, is_space}
use indica_ai.Programs.Tiers.{num, TierRewardType, number, text, Tier, set_type, edit, add_tier}
use indica_ai.Programs.Tiers.Laws.{IsTyped, edit-All}
use indica_ai.Programs.Form.{
  Preset, Trigger, State, opened, handle_preset_change, default_tiers_for, build_reward,
  build_backend_rules,
}
use indica_ai.Programs.Form.Submit.{complaint, build_request, publish}
use indica_ai.Programs.Form.Laws.{IsFilled, HasTiers, HasTarget, publish_iff}
use indica_ai.Programs.Preview.{describe_reward, rules_preview}
use indica_ai.Programs.Preview.Laws.{promises, sent, IsFlat, describe_reward-build_reward}
use indica_ai.Programs.Listing.{summarize_rule}
use indica_ai.Programs.Listing.Laws.{rules_json, expected, summarize_rule-build_backend_rules}
use indica_ai.Programs.Server.{create, rules_refused}
use indica_ai.Programs.Acceptance.{
  IsInRange, create-build_request_iff, create-handle_preset_change, create-manual,
}

abbrev filled : State
unfolding opened default_tiers_for
filled = record (opened) { nome = "Indique"; whatsapp_numero = "+5511999990000" }

filled_complaint : complaint filled ≡ none
unfolding complaint trim is_space opened default_tiers_for
filled_complaint = refl

create-build_request_iff_example :
    (create (build_request filled) ≡ none)
    ↔ ((filled.quando_pagar ≢ Trigger.manual) × IsInRange (build_reward filled))
create-build_request_iff_example = create-build_request_iff filled filled_complaint

goal_complaint : complaint (handle_preset_change Preset.goal filled) ≡ none
unfolding complaint trim is_space opened default_tiers_for handle_preset_change
goal_complaint = refl

filled_ceiling : filled.flex_max_pct ≡ num 20
unfolding opened
filled_ceiling = refl

filled_trigger : filled.quando_pagar ≢ Trigger.manual
unfolding opened
filled_trigger e = cc

create-handle_preset_change_example :
    create (build_request (handle_preset_change Preset.goal filled)) ≡ none
create-handle_preset_change_example =
    create-handle_preset_change Preset.goal filled filled_ceiling filled_trigger goal_complaint

create-manual_example :
    create (build_request (record (filled) { quando_pagar = Trigger.manual })) ≡ some rules_refused
create-manual_example = create-manual (record (filled) { quando_pagar = Trigger.manual }) refl

publish_iff_example : (is_some (publish {J = String} filled).call ≡ true) ↔ (
    IsFilled filled.nome
    × (HasTiers filled.preset filled.tiers
        × HasTarget filled.destino filled.whatsapp_numero filled.site_url))
publish_iff_example = publish_iff String filled

abbrev ten : Tier
ten = record {
  from = num 0;
  to = some (num 5);
  reward_type = TierRewardType.commission_pct;
  reward_value = number (num 10);
}

abbrev gift : Tier
gift = record {
  from = num 5;
  to = some (num 9);
  reward_type = TierRewardType.product;
  reward_value = text "Brinde";
}

preset_kept : filled.preset ≢ Preset.goal
unfolding opened
preset_kept e = cc

edit-All_example : All IsTyped (edit (set_type 0 TierRewardType.product) (ten ∷ gift ∷ []))
edit-All_example = edit-All (set_type 0 TierRewardType.product) (ten ∷ gift ∷ []) (tt, (tt, tt))

-- The page's own default for a commission ends open, so that the tier added to it begins at 0 again.
open_ended :
    last? (add_tier (default_tiers_for Preset.commission))
    ≡ some (record {
      from = num 0;
      to = some (num 5);
      reward_type = TierRewardType.commission_pct;
      reward_value = number (num 5);
    })
unfolding add_tier default_tiers_for ◌+ℤ◌
open_ended = refl

summarize_rule-build_backend_rules_example :
    summarize_rule (rules_json (build_backend_rules filled)) ≡ expected (build_reward filled)
summarize_rule-build_backend_rules_example = summarize_rule-build_backend_rules filled

filled_preset : filled.preset ≡ Preset.commission
unfolding opened
filled_preset = refl

filled-IsTyped : All IsTyped filled.tiers
unfolding opened default_tiers_for
filled-IsTyped = (tt, tt)

describe_reward-build_reward_example :
    (promises (describe_reward (rules_preview filled)) ≡ sent (build_reward filled))
    ↔ ((t : Tier) × (filled.tiers ≡ t ∷ []) × IsFlat t)
describe_reward-build_reward_example =
    describe_reward-build_reward filled filled_preset filled-IsTyped
