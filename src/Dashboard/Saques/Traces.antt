-- ===== src/Dashboard/Saques/Traces.antt =====
-- The steps of web/apps/dashboard/app/(app)/saques/page.tsx, in every order in which its requests may be
-- answered.
use indica_ai.Prelude.{
  ◌≡◌, refl, subst, true, false, Option, none, some, List, [], ◌∷◌, ◌++◌, Text, String,
}
use mathlib.Core.List.{Memᴰ}
use indica_ai.Http.{Result, resolved, rejected}
use indica_ai.Dashboard.Tasks.{
  Task, load, act, mem-append_last, Listing, Listing-append, Listing-act, Listing-nil, InFlight,
  InFlight-list, InFlight-nil,
}
use indica_ai.Dashboard.Api.Types.{Payout, PayoutsResponse}
use indica_ai.Dashboard.Saques.{
  Filter, State, Action, create_job, confirm, World, key_of, mounted, loaded, begin,
  handle_mark_paid, handle_cancel, Answer, done, failed, finish,
}
use indica_ai.Dashboard.Saques.View.{is_busy, menu, filtered, Item}
use indica_ai.Dashboard.Saques.Laws.{has_item}

-- A row of the table whose menu can be opened and has the entry.
abbrev pub Offers : State → String → Item → Type 0
Offers s id i =
    (p : Payout) × Memᴰ p (filtered s)
    × (p.id ≡ id)
    × (has_item i (menu p.status) ≡ true)
    × (is_busy s.busy id ≡ false)
    × (s.loading ≡ false)

-- What the user or the server may do next. A request is answered at any time and in any order.
pub data Step (null_message : String) (w : World) : World → Type 0 where
  searched : (t : Text) → Step null_message w (record w { page = record (w.page) { search = t } })
  selected :
      (f : Filter) → Step null_message w (record w { page = record (w.page) { status_filter = f } })
  clicked_create :
      is_busy w.page.busy "__create__" ≡ false → Step null_message w (begin create_job w)
  clicked_confirm :
      (id : String)
      → Offers w.page id Item.confirm_item
      → Step null_message w (begin (confirm id) w)
  clicked_paid :
      (id : String) (answer : Option String)
      → Offers w.page id Item.paid_item
      → Step null_message w (handle_mark_paid id answer w)
  clicked_cancel :
      (id : String) (answer : Option String)
      → Offers w.page id Item.cancel_item
      → Step null_message w (handle_cancel id answer w)
  answered_list :
      (xs ys : List (Task Action)) (r : Result PayoutsResponse)
      → w.pending ≡ xs ++ load ∷ ys
      → Step null_message w (record w { page = loaded null_message r w.page; pending = xs ++ ys })
  answered :
      (xs ys : List (Task Action)) (a : Action) (r : Answer)
      → w.pending ≡ xs ++ act a ∷ ys
      → Step null_message w (finish a r (record w { pending = xs ++ ys }))

pub data Reach (null_message : String) (w : World) : World → Type 0 where
  here : Reach null_message w w
  next : {u v : World} → Reach null_message w u → Step null_message u v → Reach null_message w v

-- A control is disabled only while a request of its own is in flight, and the page shows that it
-- loads only while a list is.
pub record IsTracked (w : World) : Type 0 where
  pub busy_in_flight : InFlight key_of w.page.busy w.pending
  pub loading_listed : Listing w.page.loading w.pending

begin-IsTracked : (a : Action) (w : World) → IsTracked w → IsTracked (begin a w)
unfolding begin
begin-IsTracked a w v = record {
  busy_in_flight = (a, mem-append_last w.pending (act a), refl);
  loading_listed = Listing-append w.page.loading w.pending (act a ∷ []) v.loading_listed;
}

finish-IsTracked :
    (a : Action) (r : Answer) (w : World)
    → Listing w.page.loading w.pending
    → IsTracked (finish a r w)
unfolding finish
finish-IsTracked a (done n) w h = record {
  busy_in_flight = tt;
  loading_listed = mem-append_last w.pending load;
}
finish-IsTracked a (failed m) w h = record { busy_in_flight = tt; loading_listed = h }

loaded-fields :
    (null_message : String) (r : Result PayoutsResponse) (s : State)
    → ((loaded null_message r s).busy ≡ s.busy) × ((loaded null_message r s).loading ≡ false)
unfolding loaded
loaded-fields null_message (resolved none) s = (refl, refl)
loaded-fields null_message (resolved (some res)) s = (refl, refl)
loaded-fields null_message (rejected e) s = (refl, refl)

answered_list-IsTracked :
    (null_message : String) (r : Result PayoutsResponse) (w : World) (xs ys : List (Task Action))
    → w.pending ≡ xs ++ load ∷ ys
    → IsTracked w
    → IsTracked (record w { page = loaded null_message r w.page; pending = xs ++ ys })
answered_list-IsTracked null_message r w xs ys e v =
    let (same_busy, idle) = loaded-fields null_message r w.page in
    record {
      busy_in_flight = rw same_busy (
          InFlight-list key_of w.page.busy xs ys
            (subst (InFlight key_of w.page.busy) e v.busy_in_flight));
      loading_listed = rw idle tt;
    }

handle_mark_paid-IsTracked :
    (id : String) (answer : Option String) (w : World)
    → IsTracked w
    → IsTracked (handle_mark_paid id answer w)
unfolding handle_mark_paid
handle_mark_paid-IsTracked id answer w v = begin-IsTracked _ w v

handle_cancel-IsTracked :
    (id : String) (answer : Option String) (w : World)
    → IsTracked w
    → IsTracked (handle_cancel id answer w)
unfolding handle_cancel
handle_cancel-IsTracked id none w v = v
handle_cancel-IsTracked id (some reason) w v = begin-IsTracked _ w v

module _ (null_message : String) where
  Step-IsTracked : {w u : World} → Step null_message w u → IsTracked w → IsTracked u
  Step-IsTracked (searched t) v = record {
    busy_in_flight = v.busy_in_flight;
    loading_listed = v.loading_listed;
  }
  Step-IsTracked (selected f) v = record {
    busy_in_flight = v.busy_in_flight;
    loading_listed = v.loading_listed;
  }
  Step-IsTracked {w} (clicked_create h) v = begin-IsTracked create_job w v
  Step-IsTracked {w} (clicked_confirm id o) v = begin-IsTracked (confirm id) w v
  Step-IsTracked {w} (clicked_paid id answer o) v = handle_mark_paid-IsTracked id answer w v
  Step-IsTracked {w} (clicked_cancel id answer o) v = handle_cancel-IsTracked id answer w v
  Step-IsTracked {w} (answered_list xs ys r e) v =
      answered_list-IsTracked null_message r w xs ys e v
  Step-IsTracked {w} (answered xs ys a r e) v =
      finish-IsTracked a r (record w { pending = xs ++ ys })
        (Listing-act w.page.loading a xs ys (subst (Listing w.page.loading) e v.loading_listed))

  mounted-IsTracked : IsTracked mounted
  unfolding mounted
  mounted-IsTracked = record { busy_in_flight = tt; loading_listed = Memᴰ.head refl }

  -- In every reachable state a control that is disabled has a request of its own in flight, and the
  -- page shows that it loads only while a list is asked for.
  pub Reach-IsTracked : {w : World} → Reach null_message mounted w → IsTracked w
  Reach-IsTracked here = mounted-IsTracked
  Reach-IsTracked (next r st) = Step-IsTracked st (Reach-IsTracked r)

  -- From the payouts page as it is mounted, after any interleaving of clicks, inputs and answers,
  -- in any order: once no request is in flight, no control is disabled and the page does not show
  -- that it loads.
  pub Reach-settled :
      {w : World}
      → Reach null_message mounted w
      → w.pending ≡ []
      → (w.page.busy ≡ none) × (w.page.loading ≡ false)
  Reach-settled {w} r e =
      let v = Reach-IsTracked r in
      (
        InFlight-nil key_of w.page.busy (subst (InFlight key_of w.page.busy) e v.busy_in_flight),
        Listing-nil Action w.page.loading (subst (Listing w.page.loading) e v.loading_listed),
      )
