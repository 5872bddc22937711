-- ===== src/Dashboard/Indicacoes/Tracked.antt =====
-- The invariant of web/apps/dashboard/app/(app)/indicacoes/table.tsx and sheet.tsx, kept by each handler.
use indica_ai.Prelude.{
  ℕ, ◌≡◌, ◌≢◌, refl, subst, ap, Bool, true, false, Option, none, some, List, [], ◌∷◌, ◌++◌, String,
  arith, Bool-cases, inl, inr, ◌==◌,
}
use mathlib.Core.List.{Memᴰ}
use indica_ai.Http.{Thrown, Result, resolved, rejected}
use indica_ai.Dashboard.Tasks.{
  Task, load, act, mem-append_last, Listing, Listing-append, Listing-act, InFlight, InFlight-append,
  InFlight-list,
}
use indica_ai.Dashboard.Api.Types.{Lead, LeadStatus}
use indica_ai.Dashboard.Indicacoes.{
  State, opened, Sheet, Change, Save, World, visible, show, render, reload, mounted, loaded,
  same_status, change_status, changed, close, save, resume, saved,
}

abbrev pub lead_id : Change → String
lead_id c = c.lead.id

-- A sheet that saves has a request of its own in flight.
abbrev pub SavingIs : Bool → ℕ → List Save → Type 0
SavingIs false n saves = Unit
SavingIs true n saves = (s : Save) × Memᴰ s saves × (s.number ≡ n)

abbrev pub Saving : Option Sheet → List Save → Type 0
Saving none saves = Unit
Saving (some s) saves = SavingIs s.saving s.number saves

pub record IsTracked (w : World) : Type 0 where
  pub busy_in_flight : InFlight lead_id w.page.updating_id w.pending
  pub loading_listed : Listing w.page.loading w.pending
  pub saving_in_flight : Saving w.sheet w.saves

show-IsTracked :
    (o : Option Lead) (p : Option Sheet) (w : World)
    → w.sheet ≡ p
    → IsTracked w
    → IsTracked (show o p w)
show-IsTracked none p w e v = record {
  busy_in_flight = v.busy_in_flight;
  loading_listed = v.loading_listed;
  saving_in_flight = tt;
}
show-IsTracked (some l) none w e v = record {
  busy_in_flight = v.busy_in_flight;
  loading_listed = v.loading_listed;
  saving_in_flight = tt;
}
show-IsTracked (some l) (some s) w e v = record {
  busy_in_flight = v.busy_in_flight;
  loading_listed = v.loading_listed;
  saving_in_flight = subst (λ o. Saving o w.saves) e v.saving_in_flight;
}

pub render-IsTracked : (w : World) → IsTracked w → IsTracked (render w)
unfolding render
render-IsTracked w v = show-IsTracked (visible w.page) w.sheet w refl v

pub change_status-IsTracked :
    (l : Lead) (k : LeadStatus) (w : World) → IsTracked w → IsTracked (change_status l k w)
unfolding change_status
change_status-IsTracked l k w v = elim (Bool-cases (same_status l.status k)) [
  | inl e ↦ rw e v
  | inr e ↦ rw e (record {
    busy_in_flight = (record { lead = l; next = k }, mem-append_last w.pending _, refl);
    loading_listed = Listing-append w.page.loading w.pending _ v.loading_listed;
    saving_in_flight = v.saving_in_flight;
  })
]

mem-append_last_save : (xs : List Save) (x : Save) → Memᴰ x (xs ++ x ∷ [])
mem-append_last_save [] x = Memᴰ.head refl
mem-append_last_save (y ∷ xs) x = Memᴰ.tail (mem-append_last_save xs x)

pub save-IsTracked : (s : Sheet) (w : World) → IsTracked w → IsTracked (save s w)
unfolding save close
save-IsTracked s w v = elim (Bool-cases (same_status s.status s.lead.status)) [
  | inl e ↦ rw e (record {
    busy_in_flight = v.busy_in_flight;
    loading_listed = v.loading_listed;
    saving_in_flight = v.saving_in_flight;
  })
  | inr e ↦ rw e (record {
    busy_in_flight = v.busy_in_flight;
    loading_listed = v.loading_listed;
    saving_in_flight = (_, mem-append_last_save w.saves _, refl);
  })
]

loaded-fields :
    (r : Result (List Lead)) (s : State)
    → ((loaded r s).updating_id ≡ s.updating_id) × ((loaded r s).loading ≡ false)
unfolding loaded
loaded-fields (resolved v) s = (refl, refl)
loaded-fields (rejected e) s = (refl, refl)

pub answered_list-IsTracked :
    (r : Result (List Lead)) (w : World) (xs ys : List (Task Change))
    → w.pending ≡ xs ++ load ∷ ys
    → IsTracked w
    → IsTracked (record w { page = loaded r w.page; pending = xs ++ ys })
answered_list-IsTracked r w xs ys e v =
    let (same_busy, idle) = loaded-fields r w.page in
    record {
      busy_in_flight = rw same_busy (
          InFlight-list lead_id w.page.updating_id xs ys
            (subst (InFlight lead_id w.page.updating_id) e v.busy_in_flight));
      loading_listed = rw idle tt;
      saving_in_flight = v.saving_in_flight;
    }

pub changed-IsTracked :
    (c : Change) (r : Result Lead) (w : World) (xs ys : List (Task Change))
    → w.pending ≡ xs ++ act c ∷ ys
    → IsTracked w
    → IsTracked (changed c r (record w { pending = xs ++ ys }))
unfolding changed reload
changed-IsTracked c (resolved x) w xs ys e v = record {
  busy_in_flight = tt;
  loading_listed = mem-append_last (xs ++ ys) load;
  saving_in_flight = v.saving_in_flight;
}
changed-IsTracked c (rejected x) w xs ys e v = record {
  busy_in_flight = tt;
  loading_listed =
      Listing-act w.page.loading c xs ys (subst (Listing w.page.loading) e v.loading_listed);
  saving_in_flight = v.saving_in_flight;
}

-- An answer to another save takes nothing away.
mem_of_other_save :
    (x y : Save) (xs ys : List Save)
    → x.number ≢ y.number
    → Memᴰ x (xs ++ y ∷ ys)
    → Memᴰ x (xs ++ ys)
mem_of_other_save x y [] ys n (Memᴰ.head e) = absurd (n (ap (λ s. s.number) e))
mem_of_other_save x y [] ys n (Memᴰ.tail m) = m
mem_of_other_save x y (z ∷ xs) ys n (Memᴰ.head e) = Memᴰ.head e
mem_of_other_save x y (z ∷ xs) ys n (Memᴰ.tail m) = Memᴰ.tail (mem_of_other_save x y xs ys n m)

SavingIs-other :
    (b : Bool) (n : ℕ) (y : Save) (xs ys : List Save)
    → (y.number == n) ≡ false
    → SavingIs b n (xs ++ y ∷ ys)
    → SavingIs b n (xs ++ ys)
SavingIs-other false n y xs ys h v = tt
SavingIs-other true n y xs ys h (s, m, e) =
    (s, mem_of_other_save s y xs ys (λ p. ground arith) m, e)

resume-Saving :
    (y : Save) (o : Option Sheet) (xs ys : List Save)
    → Saving o (xs ++ y ∷ ys)
    → Saving (resume y.number o) (xs ++ ys)
resume-Saving y none xs ys v = tt
resume-Saving y (some s) xs ys v = elim (Bool-cases (y.number == s.number)) [
  | inl own ↦ rw own tt
  | inr other ↦ rw other (SavingIs-other s.saving s.number y xs ys other v)
]

refused-IsTracked :
    (y : Save) (e : Thrown) (w : World) (xs ys : List Save)
    → w.saves ≡ xs ++ y ∷ ys
    → IsTracked w
    → IsTracked (saved y (rejected e) (record w { saves = xs ++ ys }))
unfolding saved
refused-IsTracked y x w xs ys e h = record {
  busy_in_flight = h.busy_in_flight;
  loading_listed = h.loading_listed;
  saving_in_flight = resume-Saving y w.sheet xs ys (subst (Saving w.sheet) e h.saving_in_flight);
}

-- After a success the page loads again, which takes the sheet away.
accepted-IsTracked :
    (y : Save) (v : Option Lead) (w : World)
    → InFlight lead_id w.page.updating_id w.pending
    → IsTracked (render (saved y (resolved v) w))
unfolding saved reload close render visible
accepted-IsTracked y v w h = record {
  busy_in_flight = InFlight-append lead_id w.page.updating_id w.pending _ h;
  loading_listed = mem-append_last w.pending load;
  saving_in_flight = tt;
}

pub saved-IsTracked :
    (y : Save) (r : Result Lead) (w : World) (xs ys : List Save)
    → w.saves ≡ xs ++ y ∷ ys
    → IsTracked w
    → IsTracked (render (saved y r (record w { saves = xs ++ ys })))
saved-IsTracked y (resolved v) w xs ys e h =
    accepted-IsTracked y v (record w { saves = xs ++ ys }) h.busy_in_flight
saved-IsTracked y (rejected x) w xs ys e h =
    render-IsTracked (saved y (rejected x) (record w { saves = xs ++ ys }))
      (refused-IsTracked y x w xs ys e h)

pub mounted-IsTracked : IsTracked mounted
unfolding mounted opened reload
mounted-IsTracked = record {
  busy_in_flight = tt;
  loading_listed = Memᴰ.head refl;
  saving_in_flight = tt;
}
