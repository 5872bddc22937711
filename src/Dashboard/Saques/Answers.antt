-- ===== src/Dashboard/Saques/Answers.antt =====
-- The page of web/apps/dashboard/app/(app)/saques/page.tsx while nothing is clicked: the answers to the
-- requests in flight, and to those that a success makes.
use indica_ai.Prelude.{
  ℕ, suc, ◌+◌, ◌≤◌, ◌≡◌, ap, ◌∙◌, false, none, List, [], ◌∷◌, ◌++◌, String, arith,
}
use indica_ai.Http.{Result}
use indica_ai.Dashboard.Tasks.{Task, load, act, weight, weight-append, nil_of_weight}
use indica_ai.Dashboard.Api.Types.{PayoutsResponse}
use indica_ai.Dashboard.Saques.{Action, World, mounted, loaded, Answer, done, failed, finish}
use indica_ai.Dashboard.Saques.Traces.{Reach, next, answered_list, answered, Reach-settled}

module _ (null_message : String) where
  -- A run of answers and nothing else, with their number.
  pub data Answers (w : World) : ℕ → World → Type 0 where
    start : Answers w 0 w
    list_came :
        {n : ℕ} {u : World} (xs ys : List (Task Action)) (r : Result PayoutsResponse)
        → Answers w n u
        → u.pending ≡ xs ++ load ∷ ys
        → Answers w (suc n) (record u { page = loaded null_message r u.page; pending = xs ++ ys })
    action_came :
        {n : ℕ} {u : World} (xs ys : List (Task Action)) (a : Action) (r : Answer)
        → Answers w n u
        → u.pending ≡ xs ++ act a ∷ ys
        → Answers w (suc n) (finish a r (record u { pending = xs ++ ys }))

  Answers-Reach :
      {w u : World} {n : ℕ}
      → Reach null_message mounted w
      → Answers w n u
      → Reach null_message mounted u
  Answers-Reach r start = r
  Answers-Reach r (list_came xs ys x s e) = next (Answers-Reach r s) (answered_list xs ys x e)
  Answers-Reach r (action_came xs ys a x s e) = next (Answers-Reach r s) (answered xs ys a x e)

  weight-list : (xs ys : List (Task Action)) → weight (xs ++ load ∷ ys) ≡ suc (weight (xs ++ ys))
  unfolding weight
  weight-list xs ys =
      let e = weight-append xs (load ∷ ys) in let f = weight-append xs ys in omega (arith, e, f)

  weight-act :
      (xs ys : List (Task Action)) (a : Action)
      → weight (xs ++ act a ∷ ys) ≡ suc (suc (weight (xs ++ ys)))
  unfolding weight
  weight-act xs ys a =
      let e = weight-append xs (act a ∷ ys) in let f = weight-append xs ys in omega (arith, e, f)

  -- Of what a handler's answer leaves in flight.
  weight-finish :
      (a : Action) (r : Answer) (w : World) → weight (finish a r w).pending ≤ suc (weight w.pending)
  unfolding finish weight
  weight-finish a (done n) w = let e = weight-append w.pending (load ∷ []) in omega (arith, e)
  weight-finish a (failed m) w = omega arith

  spent : {w u : World} {n : ℕ} → Answers w n u → n + weight u.pending ≤ weight w.pending
  spent start = omega arith
  spent (list_came {n} {u} xs ys r s e) =
      let h = spent s in let f = ap weight e ∙ weight-list xs ys in omega (arith, h, f)
  spent (action_came {n} {u} xs ys a r s e) =
      let h = spent s in
      let f = ap weight e ∙ weight-act xs ys a in
      let g = weight-finish a r (record u { pending = xs ++ ys }) in omega (arith, h, f, g)

  -- On the payouts page, while nothing is clicked, the answers end: from a reachable state at most
  -- one comes for each list that is asked for and two for each request of a handler in flight, less
  -- what is still in flight; and when that many have come nothing is in flight, no control is
  -- disabled and the page does not show that it loads.
  pub Answers-weight :
      {w u : World} {n : ℕ}
      → Reach null_message mounted w
      → Answers w n u
      → (n + weight u.pending ≤ weight w.pending)
        × (weight w.pending ≤ n
            → (u.pending ≡ []) × (u.page.busy ≡ none) × (u.page.loading ≡ false))
  Answers-weight {w} {u} r s = (
    spent s,
    λ h.
        let k = spent s in
        let e = nil_of_weight u.pending (omega (arith, h, k)) in
        let (idle, shown) = Reach-settled null_message (Answers-Reach r s) e in (e, idle, shown),
  )
