-- ===== src/Tests/Comissoes.antt =====
-- The commissions page on a list of two.
use indica_ai.Prelude.{◌≡◌, none, some, List, [], ◌∷◌, String, length}
use indica_ai.Dashboard.Api.Types.{Reward, RewardStatus}
use indica_ai.Dashboard.Comissoes.View.{cards}
use indica_ai.Dashboard.Comissoes.Laws.{server_summary, sum_of_cards, cards-server_summary}

abbrev reward : String → RewardStatus → Reward
reward id status = record {
  id = id;
  kind = "commission_pct";
  amount_cents = 25000;
  currency = "BRL";
  status = status;
  approved_at = none;
  rejected_reason = none;
  created_at = "2026-05-12";
  program_id = "g";
  program_name = "Indique";
  partner_id = "p";
  partner_name = "Ana";
  lead_name = none;
}

abbrev two_rewards : List Reward
two_rewards = reward "a" RewardStatus.pending ∷ reward "b" RewardStatus.paid ∷ []

cards-server_summary_example :
    sum_of_cards (cards (some (server_summary two_rewards))) ≡ length two_rewards
cards-server_summary_example = cards-server_summary two_rewards
