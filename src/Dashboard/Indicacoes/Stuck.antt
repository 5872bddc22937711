-- ===== src/Dashboard/Indicacoes/Stuck.antt =====
-- The error of web/apps/dashboard/app/(app)/indicacoes/table.tsx, which nothing on the page takes away.
use indica_ai.Prelude.{
  ◌≡◌, refl, sym, subst, ◌∙◌, true, Option, none, some, List, [], ◌∷◌, ◌++◌, arith,
}
use indica_ai.Dashboard.Words.{shows_error}
use indica_ai.Dashboard.Api.Types.{Lead}
use indica_ai.Dashboard.Indicacoes.{
  State, opened, Sheet, World, visible, show, render, reload, mounted,
}
use indica_ai.Dashboard.Indicacoes.Traces.{
  IsUncovered, Step, searched, filtered_by, clicked_row, clicked_status, picked, clicked_save,
  closed, answered_list, answered_change, answered_save, Reach, here, next,
}

-- A sheet is mounted only where it is visible.
abbrev IsHidden : World → Type 0
IsHidden w = shows_error w.page.error ≡ true → w.sheet ≡ none

hidden : (s : State) → shows_error s.error ≡ true → visible s ≡ none
unfolding visible
hidden s h = ground arith

show-page : (o : Option Lead) (p : Option Sheet) (w : World) → (show o p w).page ≡ w.page
show-page none p w = refl
show-page (some l) none w = refl
show-page (some l) (some s) w = refl

render-page : (w : World) → (render w).page ≡ w.page
unfolding render
render-page w = show-page (visible w.page) w.sheet w

render_of_none : (w : World) → visible w.page ≡ none → (render w).sheet ≡ none
unfolding render
render_of_none w h = rw h refl

render-IsHidden : (w : World) → IsHidden (render w)
render-IsHidden w h =
    render_of_none w (hidden w.page (subst (λ s. shows_error s.error ≡ true) (render-page w) h))

Step-IsHidden : {w u : World} → Step w u → IsHidden u
Step-IsHidden (searched t c) = render-IsHidden _
Step-IsHidden (filtered_by f c) = render-IsHidden _
Step-IsHidden (clicked_row l c m) = render-IsHidden _
Step-IsHidden (clicked_status l k c m b) = render-IsHidden _
Step-IsHidden (picked s k e) = render-IsHidden _
Step-IsHidden (clicked_save s e i) = render-IsHidden _
Step-IsHidden (closed s e) = render-IsHidden _
Step-IsHidden (answered_list xs ys r e) = render-IsHidden _
Step-IsHidden (answered_change xs ys c r e) = render-IsHidden _
Step-IsHidden (answered_save xs ys s r e) = render-IsHidden _

Reach-IsHidden : {w : World} → Reach mounted w → IsHidden w
unfolding mounted opened reload
Reach-IsHidden here h = refl
Reach-IsHidden (next r st) h = Step-IsHidden st h

not_nil {ℓ} : {A : Type ℓ} (l xs ys : List A) (x : A) → l ≡ [] → l ≡ xs ++ x ∷ ys → ⊥
not_nil l [] ys x e f = cc
not_nil l (y ∷ xs) ys x e f = cc

-- Nothing in flight, an error that is shown, and no sheet.
record IsStuck (w : World) : Type 0 where
  error : shows_error w.page.error ≡ true
  pending : w.pending ≡ []
  saves : w.saves ≡ []
  sheet : w.sheet ≡ none

covered : (w : World) → IsStuck w → IsUncovered w → ⊥
covered w v (a, b, c) = let e = sym v.error ∙ b in cc

unmounted : (w : World) (s : Sheet) → IsStuck w → w.sheet ≡ some s → ⊥
unmounted w s v e = let f = sym v.sheet ∙ e in cc

no_step : {w u : World} → Step w u → IsStuck w → ⊥
no_step {w} (searched t c) v = covered w v c
no_step {w} (filtered_by f c) v = covered w v c
no_step {w} (clicked_row l c m) v = covered w v c
no_step {w} (clicked_status l k c m b) v = covered w v c
no_step {w} (picked s k e) v = unmounted w s v e
no_step {w} (clicked_save s e i) v = unmounted w s v e
no_step {w} (closed s e) v = unmounted w s v e
no_step {w} (answered_list xs ys r e) v = not_nil w.pending xs ys _ v.pending e
no_step {w} (answered_change xs ys c r e) v = not_nil w.pending xs ys _ v.pending e
no_step {w} (answered_save xs ys s r e) v = not_nil w.saves xs ys _ v.saves e

stuck : {w u : World} → Reach w u → IsStuck w → u ≡ w
stuck here v = refl
stuck {w} (next r st) v = absurd (no_step st (subst IsStuck (sym (stuck r v)) v))

-- On the leads page, in any reachable state that shows an error with no request in flight, nothing
-- that the user can do changes anything: every state reached from there is that same state.
pub Reach-stuck :
    {w u : World}
    → Reach mounted w
    → shows_error w.page.error ≡ true
    → w.pending ≡ []
    → w.saves ≡ []
    → Reach w u
    → u ≡ w
Reach-stuck {w} r h e f t =
    stuck t (record { error = h; pending = e; saves = f; sheet = Reach-IsHidden r h })
