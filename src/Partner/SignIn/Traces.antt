-- ===== src/Partner/SignIn/Traces.antt =====
-- The steps of web/apps/partner/app/(auth)/login/page.tsx: the form is shown until the link was sent, and
-- the button that confirms only with a token.
use indica_ai.Prelude.{
  ◌≤◌, ◌≡◌, refl, ◌∙◌, Bool, true, false, Option, none, some, List, [], ◌∷◌, ◌++◌, String, str_eq,
  arith, Bool-cases, inl, inr, length, is_some,
}
use indica_ai.Http.{Result, resolved, rejected}
use indica_ai.Partner.Api.{Message, AccessToken}
use indica_ai.Partner.SignIn.{
  Task, ask, confirm, World, mounted, opened, handle_submit, handle_dev_confirm, with_token, asked,
  confirmed, back, type_email,
}

pub data Step (null_message : String) (w : World) : World → Type 0 where
  typed : (v : String) → w.page.sent ≡ false → Step null_message w (type_email v w)
  submitted :
      w.page.sent ≡ false → w.page.is_loading ≡ false → Step null_message w (handle_submit w)
  clicked_confirm :
      w.page.sent ≡ true
      → is_some w.page.dev_token ≡ true
      → w.page.is_loading ≡ false
      → Step null_message w (handle_dev_confirm w)
  clicked_back : w.page.sent ≡ true → Step null_message w (back w)
  answered_ask :
      (xs ys : List Task) (email : String) (r : Result Message)
      → w.pending ≡ xs ++ ask email ∷ ys
      → Step null_message w (asked null_message email r (record w { pending = xs ++ ys }))
  answered_confirm :
      (xs ys : List Task) (token : String) (r : Result AccessToken)
      → w.pending ≡ xs ++ confirm token ∷ ys
      → Step null_message w (confirmed r (record w { pending = xs ++ ys }))

pub data Reach (null_message : String) (w : World) : World → Type 0 where
  here : Reach null_message w w
  next : {u v : World} → Reach null_message w u → Step null_message u v → Reach null_message w v

-- At most one request is in flight, none where the buttons are enabled, and where none is the page has
-- left or the buttons are.
abbrev Tracked : Bool → Bool → List Task → Type 0
Tracked loading went [] = loading ≡ true → went ≡ true
Tracked loading went (t ∷ ts) = (loading ≡ true) × (ts ≡ [])

abbrev IsTracked : World → Type 0
IsTracked w = Tracked w.page.is_loading w.page.went w.pending

begun :
    (l w : Bool) (ts : List Task) (t : Task)
    → l ≡ false
    → Tracked l w ts
    → Tracked true w (ts ++ t ∷ [])
begun l w [] t e h = (refl, refl)
begun l w (u ∷ ts) t e h = cc

-- After an answer nothing is in flight.
ended :
    (l w : Bool) (ts xs ys : List Task) (t : Task)
    → ts ≡ xs ++ t ∷ ys
    → Tracked l w ts
    → xs ++ ys ≡ []
ended l w [] [] ys t e h = cc
ended l w [] (x ∷ xs) ys t e h = cc
ended l w (u ∷ ts) [] ys t e h = ground arith
ended l w (u ∷ ts) (x ∷ []) ys t e h = ground arith
ended l w (u ∷ ts) (x ∷ y ∷ xs) ys t e h = ground arith

settled : (went : Bool) (ts : List Task) → ts ≡ [] → Tracked false went ts
settled went [] e = λ f. cc
settled went (t ∷ ts) e = cc

left : (l : Bool) (ts : List Task) → ts ≡ [] → Tracked l true ts
left l [] e = λ f. refl
left l (t ∷ ts) e = cc

handle_submit-IsTracked :
    (w : World) → w.page.is_loading ≡ false → IsTracked w → IsTracked (handle_submit w)
unfolding handle_submit
handle_submit-IsTracked w e h = elim (Bool-cases (str_eq w.page.email "")) [
  | inl b ↦ rw b h
  | inr b ↦ rw b (begun w.page.is_loading w.page.went w.pending (ask w.page.email) e h)
]

confirm_from-IsTracked :
    (o : Option String) (w : World)
    → w.page.dev_token ≡ o
    → w.page.is_loading ≡ false
    → IsTracked w
    → IsTracked (handle_dev_confirm w)
unfolding handle_dev_confirm
confirm_from-IsTracked none w d e h = rw d h
confirm_from-IsTracked (some t) w d e h = elim (Bool-cases (str_eq t "")) [
  | inl b ↦ rw (d, b) h
  | inr b ↦ rw (d, b) (begun w.page.is_loading w.page.went w.pending (confirm t) e h)
]

with_token-pending :
    (email : String) (o : Option String) (w : World)
    → ((with_token email o w).pending ≡ w.pending)
      × ((with_token email o w).page.went ≡ w.page.went)
with_token-pending email none w = (refl, refl)
with_token-pending email (some t) w = elim (Bool-cases (str_eq t "")) [
  | inl b ↦ rw b (refl, refl)
  | inr b ↦ rw b (refl, refl)
]

asked-fields :
    (m email : String) (r : Result Message) (w : World)
    → ((asked m email r w).page.is_loading ≡ false) × ((asked m email r w).pending ≡ w.pending)
unfolding asked
asked-fields m email (resolved none) w = (refl, refl)
asked-fields m email (resolved (some v)) w = (refl, (with_token-pending email v.dev_token w).0)
asked-fields m email (rejected e) w = (refl, refl)

asked-IsTracked :
    (m email : String) (r : Result Message) (w : World)
    → w.pending ≡ []
    → IsTracked (asked m email r w)
asked-IsTracked m email r w e =
    let (idle, same) = asked-fields m email r w in let k = same ∙ e in rw (idle, k) (λ f. cc)

confirmed-IsTracked :
    (r : Result AccessToken) (w : World) → w.pending ≡ [] → IsTracked (confirmed r w)
unfolding confirmed
confirmed-IsTracked (resolved v) w e = left w.page.is_loading w.pending e
confirmed-IsTracked (rejected x) w e = settled w.page.went w.pending e

bounded :
    (l went : Bool) (ts : List Task)
    → Tracked l went ts
    → (length ts ≤ 1) × (l ≡ false → ts ≡ []) × (ts ≡ [] → went ≡ false → l ≡ false)
bounded false went [] h = (omega arith, λ e. refl, λ e f. refl)
bounded true went [] h = (omega arith, λ e. refl, λ e f. absurd (let g = h refl in cc))
bounded l went (t ∷ ts) h = (ground arith, λ e. cc, λ e f. cc)

module _ (null_message : String) where
  Step-IsTracked : {w u : World} → Step null_message w u → IsTracked w → IsTracked u
  unfolding type_email back
  Step-IsTracked (typed v s) h = h
  Step-IsTracked {w} (submitted s e) h = handle_submit-IsTracked w e h
  Step-IsTracked {w} (clicked_confirm s d e) h = confirm_from-IsTracked w.page.dev_token w refl e h
  Step-IsTracked (clicked_back s) h = h
  Step-IsTracked {w} (answered_ask xs ys email r e) h =
      asked-IsTracked null_message email r (record w { pending = xs ++ ys })
        (ended w.page.is_loading w.page.went w.pending xs ys _ e h)
  Step-IsTracked {w} (answered_confirm xs ys token r e) h =
      confirmed-IsTracked r (record w { pending = xs ++ ys })
        (ended w.page.is_loading w.page.went w.pending xs ys _ e h)

  tracked : {w : World} → Reach null_message mounted w → IsTracked w
  unfolding mounted opened
  tracked here = λ f. cc
  tracked (next r st) = Step-IsTracked st (tracked r)

  -- In every state that the partner's login page reaches, at most one request is in flight, none is
  -- while the buttons are enabled, and once none is, the page has been left or its buttons are
  -- enabled.
  pub Reach-length-pending :
      {w : World}
      → Reach null_message mounted w
      → (length w.pending ≤ 1)
        × (w.page.is_loading ≡ false → w.pending ≡ [])
        × (w.pending ≡ [] → w.page.went ≡ false → w.page.is_loading ≡ false)
  Reach-length-pending {w} r = bounded w.page.is_loading w.page.went w.pending (tracked r)
