-- ===== src/Dashboard/Comissoes/Traces.antt =====
-- The steps of web/apps/dashboard/app/(app)/comissoes/page.tsx, in every order in which its requests may
-- be answered.
use indica_ai.Prelude.{
  ◌≡◌, refl, subst, true, false, Option, none, some, List, [], ◌∷◌, ◌++◌, Text, String,
}
use mathlib.Core.List.{Memᴰ}
use indica_ai.Http.{Result, resolved, rejected}
use indica_ai.Dashboard.Tasks.{
  Task, load, act, mem-append_last, Listing, Listing-append, Listing-act, Listing-nil, InFlight,
  InFlight-list, InFlight-nil,
}
use indica_ai.Dashboard.Api.Types.{Reward}
use indica_ai.Dashboard.Api.Endpoints.{Fields}
use indica_ai.Dashboard.Comissoes.{
  Filter, State, opened, Action, approve, World, key_of, reload, mounted, Both, both, one_failed,
  loaded, begin, reject_of, handle_reject, finish,
}
use indica_ai.Dashboard.Comissoes.View.{is_busy, menu, filtered, Item}
use indica_ai.Dashboard.Comissoes.Laws.{has_item}

-- A row of the table whose menu can be opened and has the entry.
abbrev pub Offers : State → String → Item → Type 0
Offers s id i =
    (r : Reward) × Memᴰ r (filtered s)
    × (r.id ≡ id)
    × (has_item i (menu r.status) ≡ true)
    × (is_busy s.busy id ≡ false)
    × (s.loading ≡ false)

-- What the user or the server may do next. A request is answered at any time and in any order.
pub data Step (w : World) : World → Type 0 where
  searched : (t : Text) → Step w (record w { page = record (w.page) { search = t } })
  selected : (f : Filter) → Step w (record w { page = record (w.page) { status_filter = f } })
  clicked_approve :
      (id : String) → Offers w.page id Item.approve_item → Step w (begin (approve id) w)
  clicked_reject :
      (id : String) (answer : Option String)
      → Offers w.page id Item.reject_item
      → Step w (handle_reject id answer w)
  answered_list :
      (xs ys : List (Task Action)) (b : Both)
      → w.pending ≡ xs ++ load ∷ ys
      → Step w (record w { page = loaded b w.page; pending = xs ++ ys })
  answered :
      (xs ys : List (Task Action)) (a : Action) (r : Result Fields)
      → w.pending ≡ xs ++ act a ∷ ys
      → Step w (finish a r (record w { pending = xs ++ ys }))

pub data Reach (w : World) : World → Type 0 where
  here : Reach w w
  next : {u v : World} → Reach w u → Step u v → Reach w v

-- A menu is disabled only while a request of its own is in flight, and the page shows that it loads only
-- while a list is.
pub record IsTracked (w : World) : Type 0 where
  pub busy_in_flight : InFlight key_of w.page.busy w.pending
  pub loading_listed : Listing w.page.loading w.pending

begin-IsTracked : (a : Action) (w : World) → IsTracked w → IsTracked (begin a w)
unfolding begin
begin-IsTracked a w v = record {
  busy_in_flight = (a, mem-append_last w.pending (act a), refl);
  loading_listed = Listing-append w.page.loading w.pending (act a ∷ []) v.loading_listed;
}

begin_option-IsTracked :
    (o : Option Action) (w : World)
    → IsTracked w
    → IsTracked (elim o [ none ↦ w | some a ↦ begin a w ])
begin_option-IsTracked none w v = v
begin_option-IsTracked (some a) w v = begin-IsTracked a w v

handle_reject-IsTracked :
    (id : String) (answer : Option String) (w : World)
    → IsTracked w
    → IsTracked (handle_reject id answer w)
unfolding handle_reject
handle_reject-IsTracked id answer w v = begin_option-IsTracked (reject_of id answer) w v

finish-IsTracked :
    (a : Action) (r : Result Fields) (w : World)
    → Listing w.page.loading w.pending
    → IsTracked (finish a r w)
unfolding finish reload
finish-IsTracked a (resolved v) w h = record {
  busy_in_flight = tt;
  loading_listed = mem-append_last w.pending load;
}
finish-IsTracked a (rejected e) w h = record { busy_in_flight = tt; loading_listed = h }

loaded-fields :
    (b : Both) (s : State) → ((loaded b s).busy ≡ s.busy) × ((loaded b s).loading ≡ false)
unfolding loaded
loaded-fields (both l sum) s = (refl, refl)
loaded-fields (one_failed e) s = (refl, refl)

answered_list-IsTracked :
    (b : Both) (w : World) (xs ys : List (Task Action))
    → w.pending ≡ xs ++ load ∷ ys
    → IsTracked w
    → IsTracked (record w { page = loaded b w.page; pending = xs ++ ys })
answered_list-IsTracked b w xs ys e v =
    let (same_busy, idle) = loaded-fields b w.page in
    record {
      busy_in_flight = rw same_busy (
          InFlight-list key_of w.page.busy xs ys
            (subst (InFlight key_of w.page.busy) e v.busy_in_flight));
      loading_listed = rw idle tt;
    }

Step-IsTracked : {w u : World} → Step w u → IsTracked w → IsTracked u
Step-IsTracked (searched t) v = record {
  busy_in_flight = v.busy_in_flight;
  loading_listed = v.loading_listed;
}
Step-IsTracked (selected f) v = record {
  busy_in_flight = v.busy_in_flight;
  loading_listed = v.loading_listed;
}
Step-IsTracked {w} (clicked_approve id o) v = begin-IsTracked (approve id) w v
Step-IsTracked {w} (clicked_reject id answer o) v = handle_reject-IsTracked id answer w v
Step-IsTracked {w} (answered_list xs ys b e) v = answered_list-IsTracked b w xs ys e v
Step-IsTracked {w} (answered xs ys a r e) v =
    finish-IsTracked a r (record w { pending = xs ++ ys })
      (Listing-act w.page.loading a xs ys (subst (Listing w.page.loading) e v.loading_listed))

mounted-IsTracked : IsTracked mounted
unfolding mounted opened reload
mounted-IsTracked = record { busy_in_flight = tt; loading_listed = Memᴰ.head refl }

tracked : {w : World} → Reach mounted w → IsTracked w
tracked here = mounted-IsTracked
tracked (next r st) = Step-IsTracked st (tracked r)

-- From the commissions page as it is mounted, after any interleaving of clicks, inputs and answers,
-- in any order: once no request is in flight, no menu is disabled and the page does not show that
-- it loads.
pub Reach-idle :
    {w : World} → Reach mounted w → w.pending ≡ [] → (w.page.busy ≡ none) × (w.page.loading ≡ false)
Reach-idle {w} r e =
    let v = tracked r in
    (
      InFlight-nil key_of w.page.busy (subst (InFlight key_of w.page.busy) e v.busy_in_flight),
      Listing-nil Action w.page.loading (subst (Listing w.page.loading) e v.loading_listed),
    )
