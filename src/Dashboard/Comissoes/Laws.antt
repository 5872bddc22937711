-- ===== src/Dashboard/Comissoes/Laws.antt =====
-- Lemmas about the cards, the menus and the filter of web/apps/dashboard/app/(app)/comissoes/page.tsx,
-- with the summary and the transitions of internal/api/handlers/rewards/handler.go.
use indica_ai.Prelude.{
  ℕ, suc, ◌+◌, ◌≡◌, ◌↔◌, refl, ◌≢◌, ap, ◌∙◌, Bool, true, false, ◌||◌, ◌++◌, List, [], ◌∷◌, Text,
  &&_iff, mem-select, some, mem_of_select, arith, length,
}
use mathlib.Core.List.{Memᴰ}
use indica_ai.Js.Strings.{lower}
use indica_ai.Js.Strings.Laws.{includes_iff}
use indica_ai.Dashboard.Api.Types.{Reward, RewardStatus, RewardSummary}
use indica_ai.Dashboard.Comissoes.{Filter, all, only, State}
use indica_ai.Dashboard.Comissoes.View.{
  Cards, cards, same_status, matches_status, haystack, matches, filtered, Item, approve_item,
  reject_item, no_action, menu,
}

-- `Summary` of internal/api/handlers/rewards/handler.go: for each status the number of its rewards.
abbrev count_in : RewardStatus → RewardSummary → RewardSummary
count_in RewardStatus.pending s = record s { pending = suc s.pending }
count_in RewardStatus.approved s = record s { approved = suc s.approved }
count_in RewardStatus.paid s = record s { paid = suc s.paid }
count_in RewardStatus.rejected s = record s { rejected = suc s.rejected }
count_in RewardStatus.cancelled s = record s { cancelled = suc s.cancelled }

unfoldable pub server_summary : List Reward → RewardSummary
server_summary [] = record { pending = 0; approved = 0; paid = 0; rejected = 0; cancelled = 0 }
server_summary (r ∷ rs) = count_in r.status (server_summary rs)

abbrev pub sum_of_cards : Cards → ℕ
sum_of_cards c = c.pending + c.approved + c.paid + c.rejected

count_in-cards :
    (k : RewardStatus) (s : RewardSummary)
    → sum_of_cards (cards (some (count_in k s))) ≡ suc (sum_of_cards (cards (some s)))
unfolding cards
count_in-cards k s = ground arith

-- With the server's summary of a list of commissions the cents on the four cards of the commissions
-- page add up to the number of commissions.
pub cards-server_summary :
    (rs : List Reward) → sum_of_cards (cards (some (server_summary rs))) ≡ length rs
unfolding server_summary cards
cards-server_summary [] = refl
cards-server_summary (r ∷ rs) =
    count_in-cards r.status (server_summary rs) ∙ ap suc (cards-server_summary rs)

-- The transitions of `Approve` and `Reject` of the same file: the new status, and whether it was done.
unfoldable pub server_approve : RewardStatus → RewardStatus × Bool
server_approve RewardStatus.pending = (RewardStatus.approved, true)
server_approve s = (s, false)

unfoldable pub server_reject : RewardStatus → RewardStatus × Bool
server_reject RewardStatus.pending = (RewardStatus.rejected, true)
server_reject RewardStatus.approved = (RewardStatus.rejected, true)
server_reject s = (s, false)

-- What the server answers to the request behind a menu entry.
abbrev pub server : Item → RewardStatus → RewardStatus × Bool
server approve_item s = server_approve s
server reject_item s = server_reject s
server no_action s = (s, false)

abbrev same_item : Item → Item → Bool
same_item approve_item approve_item = true
same_item reject_item reject_item = true
same_item no_action no_action = true
same_item _ _ = false

abbrev pub has_item : Item → List Item → Bool
has_item i [] = false
has_item i (j ∷ items) = same_item i j || has_item i items

-- An entry of a commission's menu other than the disabled one is one that the server, at that
-- status, carries out and that moves the commission to another status.
pub menu-server :
    (i : Item) (s : RewardStatus)
    → i ≢ no_action
    → has_item i (menu s) ≡ true
    → ((server i s).1 ≡ true) × ((server i s).0 ≢ s)
unfolding server_approve server_reject
menu-server i s n h = ground arith

same_status_iff : (a b : RewardStatus) → (same_status a b ≡ true) ↔ (a ≡ b)
same_status_iff a b = ground arith

-- The statuses that the select lets through.
abbrev pub Selects : Filter → RewardStatus → Type 0
Selects all s = Unit
Selects (only f) s = s ≡ f

Selects-iff : (f : Filter) (s : RewardStatus) → (matches_status f s ≡ true) ↔ Selects f s
Selects-iff all s = ground arith
Selects-iff (only f) s = same_status_iff s f

abbrev pub Holds : Text → Text → Type 0
Holds t p = (pre : Text) × (post : Text) × (t ≡ pre ++ (p ++ post))

matches_iff :
    (f : Filter) (search : Text) (r : Reward)
    → (matches f search r ≡ true) ↔ (Selects f r.status × Holds (haystack r) (lower search))
unfolding matches
matches_iff f search r = (
  λ h.
      let (s, t) = (&&_iff (matches_status f r.status) _).0 h in
      ((Selects-iff f r.status).0 s, (includes_iff _ _).0 t),
  λ h.
      (&&_iff (matches_status f r.status) _).1
        ((Selects-iff f r.status).1 h.0, (includes_iff _ _).1 h.1),
)

-- The table shows a commission exactly when it is in the list, has the selected status, and its
-- names that are not empty, joined by spaces and in lower case, hold the searched text in lower
-- case.
pub mem-filtered_iff :
    (s : State) (r : Reward)
    → Memᴰ r (filtered s) ↔ (
        Memᴰ r s.rewards × (Selects s.status_filter r.status × Holds (haystack r) (lower s.search)))
unfolding filtered
mem-filtered_iff s r = (
  λ m.
      let (found, h) = mem_of_select (matches s.status_filter s.search) r s.rewards m in
      (found, (matches_iff s.status_filter s.search r).0 h),
  λ h.
      mem-select (matches s.status_filter s.search) r s.rewards h.0
        ((matches_iff s.status_filter s.search r).1 h.1),
)
