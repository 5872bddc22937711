-- ===== src/Dashboard/Saques/Laws.antt =====
-- Lemmas about the totals, the menus and the filter of web/apps/dashboard/app/(app)/saques/page.tsx.
use indica_ai.Prelude.{
  ℕ, ◌+◌, ◌≡◌, ◌≢◌, ◌↔◌, refl, Bool, true, false, ◌||◌, ◌++◌, codes, List, [], ◌∷◌, Text, &&_iff,
  mem-select, mem_of_select, arith,
}
use mathlib.Core.List.{Memᴰ}
use indica_ai.Js.Strings.{lower}
use indica_ai.Js.Strings.Laws.{includes_iff}
use indica_ai.Dashboard.Api.Types.{Payout, PayoutStatus}
use indica_ai.Dashboard.Saques.{Filter, all, only, State}
use indica_ai.Dashboard.Saques.Server.{server_confirm, server_paid, server_cancel}
use indica_ai.Dashboard.Saques.View.{
  Totals, add_payout, totals_from, totals, same_status, matches_status, matches, filtered, Item,
  confirm_item, paid_item, cancel_item, no_action, menu,
}

abbrev pub amounts : List Payout → ℕ
amounts [] = 0
amounts (p ∷ ps) = p.amount_cents + amounts ps

abbrev sum_of : Totals → ℕ
sum_of t = t.pending + t.processing + t.paid + t.cancelled

add_payout-sum :
    (acc : Totals) (s : PayoutStatus) (c : ℕ) → sum_of (add_payout acc s c) ≡ sum_of acc + c
unfolding add_payout
add_payout-sum acc s c = ground arith

totals_from-sum :
    (acc : Totals) (ps : List Payout) → sum_of (totals_from acc ps) ≡ sum_of acc + amounts ps
unfolding totals_from
totals_from-sum acc [] = omega arith
totals_from-sum acc (p ∷ ps) = omega (
  arith,
  totals_from-sum (add_payout acc p.status p.amount_cents) ps,
  add_payout-sum acc p.status p.amount_cents,
)

-- The four totals of the payouts page add up to the sum of the amounts of all payouts.
pub totals-sum :
    (ps : List Payout)
    → (totals ps).pending + (totals ps).processing + (totals ps).paid + (totals ps).cancelled
      ≡ amounts ps
unfolding totals
totals-sum ps =
    omega
      (arith, totals_from-sum (record { pending = 0; processing = 0; paid = 0; cancelled = 0 }) ps)

-- What the server answers to the request behind a menu entry.
abbrev pub server : Item → PayoutStatus → PayoutStatus × Bool
server confirm_item s = server_confirm s
server paid_item s = server_paid s
server cancel_item s = server_cancel s
server no_action s = (s, false)

abbrev same_item : Item → Item → Bool
same_item confirm_item confirm_item = true
same_item paid_item paid_item = true
same_item cancel_item cancel_item = true
same_item no_action no_action = true
same_item _ _ = false

abbrev pub has_item : Item → List Item → Bool
has_item i [] = false
has_item i (j ∷ items) = same_item i j || has_item i items

-- The menu of a payout has an entry other than the disabled one exactly when the server, at that
-- status, answers 200 to its request and moves the payout to another status.
pub menu_iff :
    (i : Item) (s : PayoutStatus)
    → i ≢ no_action
    → (has_item i (menu s) ≡ true) ↔ (((server i s).1 ≡ true) × ((server i s).0 ≢ s))
unfolding server_confirm server_paid server_cancel
menu_iff i s n = ground arith

same_status_iff : (s t : PayoutStatus) → (same_status s t ≡ true) ↔ (s ≡ t)
same_status_iff s t = ground arith

-- What the status select lets through.
abbrev pub Admits : Filter → PayoutStatus → Type 0
Admits all s = Unit
Admits (only f) s = s ≡ f

matches_status_iff : (f : Filter) (s : PayoutStatus) → (matches_status f s ≡ true) ↔ Admits f s
matches_status_iff all s = (λ h. tt, λ h. refl)
matches_status_iff (only f) s = same_status_iff s f

abbrev pub Holds : Text → Text → Type 0
Holds t p = (pre : Text) × (post : Text) × (t ≡ pre ++ (p ++ post))

matches_iff :
    (f : Filter) (search : Text) (p : Payout)
    → (matches f search p ≡ true)
      ↔ (Admits f p.status × Holds (lower (codes p.partner_name)) (lower search))
unfolding matches
matches_iff f search p = (
  λ h.
      let (s, t) = (&&_iff (matches_status f p.status) _).0 h in
      ((matches_status_iff f p.status).0 s, (includes_iff _ _).0 t),
  λ h.
      (&&_iff (matches_status f p.status) _).1
        ((matches_status_iff f p.status).1 h.0, (includes_iff _ _).1 h.1),
)

-- The table shows a payout exactly when it is in the list, has the selected status, and its
-- partner's name holds the searched text, both in lower case.
pub filtered_iff :
    (s : State) (p : Payout)
    → Memᴰ p (filtered s) ↔ (
        Memᴰ p s.payouts
        × (Admits s.status_filter p.status × Holds (lower (codes p.partner_name)) (lower s.search)))
unfolding filtered
filtered_iff s p = (
  λ m.
      let (found, h) = mem_of_select (matches s.status_filter s.search) p s.payouts m in
      (found, (matches_iff s.status_filter s.search p).0 h),
  λ h.
      mem-select (matches s.status_filter s.search) p s.payouts h.0
        ((matches_iff s.status_filter s.search p).1 h.1),
)
