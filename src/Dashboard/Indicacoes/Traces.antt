-- ===== src/Dashboard/Indicacoes/Traces.antt =====
-- The steps of web/apps/dashboard/app/(app)/indicacoes/table.tsx and sheet.tsx, in every order in which the
-- requests may be answered. A sheet is modal: while it is open the table takes no click.
use indica_ai.Prelude.{
  ℕ, ◌≡◌, refl, subst, Bool, true, false, Option, none, some, List, [], ◌∷◌, ◌++◌, Text,
}
use mathlib.Core.List.{Memᴰ}
use indica_ai.Http.{Result}
use indica_ai.Dashboard.Tasks.{Task, load, act, Listing, Listing-nil, InFlight, InFlight-nil}
use indica_ai.Dashboard.Words.{shows_error}
use indica_ai.Dashboard.Api.Types.{Lead, LeadStatus}
use indica_ai.Dashboard.Indicacoes.{
  Filter, Sheet, Change, Save, World, render, mounted, loaded, change_status, changed, close, save,
  saved,
}
use indica_ai.Dashboard.Indicacoes.View.{filtered, is_busy}
use indica_ai.Dashboard.Indicacoes.Tracked.{
  lead_id, SavingIs, Saving, IsTracked, render-IsTracked, change_status-IsTracked, save-IsTracked,
  answered_list-IsTracked, changed-IsTracked, saved-IsTracked, mounted-IsTracked,
}

-- The table is shown, and no sheet covers it.
abbrev pub IsUncovered : World → Type 0
IsUncovered w = (w.page.loading ≡ false) × (shows_error w.page.error ≡ false) × (w.sheet ≡ none)

-- What the user or the server may do next. A request is answered at any time and in any order.
pub data Step (w : World) : World → Type 0 where
  searched :
      (t : Text)
      → IsUncovered w
      → Step w (render (record w { page = record (w.page) { search = t } }))
  filtered_by :
      (f : Filter)
      → IsUncovered w
      → Step w (render (record w { page = record (w.page) { status_filter = f } }))
  clicked_row :
      (l : Lead)
      → IsUncovered w
      → Memᴰ l (filtered w.page)
      → Step w (render (record w { page = record (w.page) { selected = some l } }))
  clicked_status :
      (l : Lead) (next : LeadStatus)
      → IsUncovered w
      → Memᴰ l (filtered w.page)
      → is_busy w.page.updating_id l.id ≡ false
      → Step w (render (change_status l next w))
  picked :
      (s : Sheet) (k : LeadStatus)
      → w.sheet ≡ some s
      → Step w (render (record w { sheet = some (record s { status = k }) }))
  clicked_save : (s : Sheet) → w.sheet ≡ some s → s.saving ≡ false → Step w (render (save s w))
  closed : (s : Sheet) → w.sheet ≡ some s → Step w (render (close w))
  answered_list :
      (xs ys : List (Task Change)) (r : Result (List Lead))
      → w.pending ≡ xs ++ load ∷ ys
      → Step w (render (record w { page = loaded r w.page; pending = xs ++ ys }))
  answered_change :
      (xs ys : List (Task Change)) (c : Change) (r : Result Lead)
      → w.pending ≡ xs ++ act c ∷ ys
      → Step w (render (changed c r (record w { pending = xs ++ ys })))
  answered_save :
      (xs ys : List Save) (s : Save) (r : Result Lead)
      → w.saves ≡ xs ++ s ∷ ys
      → Step w (render (saved s r (record w { saves = xs ++ ys })))

pub data Reach (w : World) : World → Type 0 where
  here : Reach w w
  next : {u v : World} → Reach w u → Step u v → Reach w v

plain-IsTracked :
    (w u : World)
    → (u.page.updating_id ≡ w.page.updating_id)
      × (u.page.loading ≡ w.page.loading)
      × (u.pending ≡ w.pending)
      × (Saving u.sheet u.saves)
    → IsTracked w
    → IsTracked (render u)
plain-IsTracked w u (a, b, c, d) v = render-IsTracked u (record {
  busy_in_flight = rw (a, c) v.busy_in_flight;
  loading_listed = rw (b, c) v.loading_listed;
  saving_in_flight = d;
})

picked-Saving :
    (o : Option Sheet) (s : Sheet) (k : LeadStatus) (saves : List Save)
    → o ≡ some s
    → Saving o saves
    → Saving (some (record s { status = k })) saves
picked-Saving o s k saves e h = subst (λ p. Saving p saves) e h

Step-IsTracked : {w u : World} → Step w u → IsTracked w → IsTracked u
unfolding close
Step-IsTracked {w} (searched t c) v = plain-IsTracked w _ (refl, refl, refl, v.saving_in_flight) v
Step-IsTracked {w} (filtered_by f c) v =
    plain-IsTracked w _ (refl, refl, refl, v.saving_in_flight) v
Step-IsTracked {w} (clicked_row l c m) v =
    plain-IsTracked w _ (refl, refl, refl, v.saving_in_flight) v
Step-IsTracked {w} (clicked_status l k c m b) v =
    render-IsTracked _ (change_status-IsTracked l k w v)
Step-IsTracked {w} (picked s k e) v =
    plain-IsTracked w _ (refl, refl, refl, picked-Saving w.sheet s k w.saves e v.saving_in_flight) v
Step-IsTracked {w} (clicked_save s e i) v = render-IsTracked _ (save-IsTracked s w v)
Step-IsTracked {w} (closed s e) v = plain-IsTracked w _ (refl, refl, refl, v.saving_in_flight) v
Step-IsTracked {w} (answered_list xs ys r e) v =
    render-IsTracked _ (answered_list-IsTracked r w xs ys e v)
Step-IsTracked {w} (answered_change xs ys c r e) v =
    render-IsTracked _ (changed-IsTracked c r w xs ys e v)
Step-IsTracked {w} (answered_save xs ys s r e) v = saved-IsTracked s r w xs ys e v

Reach-IsTracked : {w : World} → Reach mounted w → IsTracked w
Reach-IsTracked here = mounted-IsTracked
Reach-IsTracked (next r st) = Step-IsTracked st (Reach-IsTracked r)

abbrev pub is_saving : Option Sheet → Bool
is_saving none = false
is_saving (some s) = s.saving

SavingIs-nil : (b : Bool) (n : ℕ) → SavingIs b n [] → b ≡ false
SavingIs-nil false n h = refl
SavingIs-nil true n (s, m, e) = elim m [ ]

Saving-nil : (o : Option Sheet) → Saving o [] → is_saving o ≡ false
Saving-nil none h = refl
Saving-nil (some s) h = SavingIs-nil s.saving s.number h

-- From the leads page as it is mounted, after any interleaving of clicks, inputs and answers with
-- its sheet, in any order: once no request is in flight, no menu is disabled, the table does not
-- show that it loads, and an open sheet is not saving.
pub Reach-quiet :
    {w : World}
    → Reach mounted w
    → w.pending ≡ []
    → w.saves ≡ []
    → (w.page.updating_id ≡ none) × (w.page.loading ≡ false) × (is_saving w.sheet ≡ false)
Reach-quiet {w} r e f =
    let v = Reach-IsTracked r in
    (
      InFlight-nil lead_id w.page.updating_id
          (subst (InFlight lead_id w.page.updating_id) e v.busy_in_flight),
      Listing-nil Change w.page.loading (subst (Listing w.page.loading) e v.loading_listed),
      Saving-nil w.sheet (subst (Saving w.sheet) f v.saving_in_flight),
    )
