-- ===== src/Dashboard/Saques/Races.antt =====
-- Two requests of web/apps/dashboard/app/(app)/saques/page.tsx at once.
use indica_ai.Prelude.{◌≡◌, refl, Option, none, some, [], ◌∷◌, String}
use mathlib.Core.List.{Memᴰ}
use indica_ai.Js.Strings.{includes, lower}
use indica_ai.Http.{Result, resolved}
use indica_ai.Dashboard.Api.Types.{Payout, PayoutStatus, PayoutsResponse}
use indica_ai.Dashboard.Tasks.{act}
use indica_ai.Dashboard.Saques.{
  Action, confirm, create_job, mark_paid, cancel, World, mounted, loaded, begin, done, finish,
}
use indica_ai.Dashboard.Saques.View.{filtered, matches}
use indica_ai.Dashboard.Saques.Traces.{clicked_confirm, answered_list, answered, Reach, here, next}

abbrev payout : String → Payout
payout id = record {
  id = id;
  partner_id = "p";
  partner_name = "Ana";
  pix_key = none;
  pix_key_type = none;
  amount_cents = 5000;
  currency = "BRL";
  method = "pix";
  status = PayoutStatus.pending;
  created_at = "2026-05-12";
  reward_count = none;
}

abbrev two_payouts : Result PayoutsResponse
two_payouts = resolved (
    some (record {
      payouts = some (payout "a" ∷ payout "b" ∷ []);
      total_count = 2;
      page = 1;
      limit = 100;
    }))

abbrev listed : String → World
listed null_message = record (mounted) {
  page = loaded null_message two_payouts mounted.page;
  pending = [];
}

abbrev one_confirmed : String → World
one_confirmed m = begin (confirm "a") (listed m)

abbrev two_confirmed : String → World
two_confirmed m = begin (confirm "b") (one_confirmed m)

abbrev one_answered : String → World
one_answered m =
    finish (confirm "b") (done 0) (record (two_confirmed m) { pending = act (confirm "a") ∷ [] })

one_answered-Reach : (m : String) → Reach m mounted (one_answered m)
unfolding mounted loaded begin finish filtered matches includes lower
one_answered-Reach m =
    next
      (next
        (next (next here (answered_list [] [] two_payouts refl))
          (clicked_confirm "a" (payout "a", Memᴰ.head refl, refl, refl, refl, refl)))
        (clicked_confirm "b" (payout "b", Memᴰ.tail (Memᴰ.head refl), refl, refl, refl, refl)))
      (answered (act (confirm "a") ∷ []) [] (confirm "b") (done 0) refl)

-- The row whose menu has the action; the creation of payouts is of no row.
abbrev pub row_of : Action → Option String
row_of create_job = none
row_of (confirm id) = some id
row_of (mark_paid id answer) = some id
row_of (cancel id reason) = some id

-- It is not so that in every reachable state of the payouts page each request of a row's menu that
-- is in flight keeps the busy slot at that row, which disables its menu.
pub in_flight_not_busy : ¬ (
    (m : String) (w : World)
    → Reach m mounted w
    → (a : Action) (id : String) → row_of a ≡ some id
    → Memᴰ (act a) w.pending
    → w.page.busy ≡ some id)
unfolding mounted begin finish
in_flight_not_busy all =
    cc (all "" (one_answered "") (one_answered-Reach "") (confirm "a") "a" refl (Memᴰ.head refl))
