-- ===== src/Tests/Saques.antt =====
-- The payouts page with its list loaded, or failed.
use indica_ai.Prelude.{
  ◌+◌, ◌≤◌, ◌≡◌, ◌≢◌, ◌↔◌, refl, true, false, none, some, List, [], ◌∷◌, String, codes,
}
use indica_ai.Http.{Result, resolved, rejected, other_error}
use indica_ai.Dashboard.Api.Types.{Payout, PayoutStatus, PayoutsResponse}
use indica_ai.Dashboard.Saques.{World, mounted, loaded}
use indica_ai.Dashboard.Saques.View.{confirm_item, menu}
use indica_ai.Dashboard.Saques.Laws.{server, has_item, menu_iff}
use indica_ai.Dashboard.Tasks.{weight}
use indica_ai.Dashboard.Saques.Answers.{Answers, start, list_came, Answers-weight}
use indica_ai.Dashboard.Saques.Traces.{Reach, here, next, answered_list, Reach-settled}

abbrev payout : String → PayoutStatus → Payout
payout id status = record {
  id = id;
  partner_id = "p";
  partner_name = "Ana";
  pix_key = none;
  pix_key_type = none;
  amount_cents = 5000;
  currency = "BRL";
  method = "pix";
  status = status;
  created_at = "2026-05-12";
  reward_count = none;
}

abbrev two_payouts : List Payout
two_payouts = payout "a" PayoutStatus.pending ∷ payout "b" PayoutStatus.failed ∷ []

abbrev answer : Result PayoutsResponse
answer =
    resolved (some (record { payouts = some two_payouts; total_count = 2; page = 1; limit = 100 }))

abbrev listed : World
listed = record (mounted) { page = loaded "null" answer mounted.page; pending = [] }

listed-Reach : Reach "null" mounted listed
unfolding mounted
listed-Reach = next here (answered_list [] [] answer refl)

Reach-settled_example : (listed.page.busy ≡ none) × (listed.page.loading ≡ false)
Reach-settled_example = Reach-settled "null" listed-Reach refl

abbrev failed_list : World
failed_list = record (mounted) {
  page = loaded "null" (rejected (other_error "Failed to fetch")) mounted.page;
  pending = [];
}

abbrev failed_searched : World
failed_searched = record (failed_list) { page = record (failed_list.page) { search = codes "ana" } }

menu_iff_example : (has_item confirm_item (menu PayoutStatus.pending) ≡ true) ↔ (
    ((server confirm_item PayoutStatus.pending).1 ≡ true)
    × ((server confirm_item PayoutStatus.pending).0 ≢ PayoutStatus.pending))
menu_iff_example = menu_iff confirm_item PayoutStatus.pending (λ e. cc)

listed-Answers : Answers "null" mounted 1 listed
unfolding mounted
listed-Answers = list_came [] [] answer start refl

Answers-weight_example :
    (1 + weight listed.pending ≤ weight mounted.pending)
    × (weight mounted.pending ≤ 1
        → (listed.pending ≡ []) × (listed.page.busy ≡ none) × (listed.page.loading ≡ false))
Answers-weight_example = Answers-weight "null" here listed-Answers
