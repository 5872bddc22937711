-- ===== src/Dashboard/Auditoria/Traces.antt =====
-- The steps of web/apps/dashboard/app/(app)/auditoria/page.tsx, and the orders in which its three requests
-- may be answered.
use indica_ai.Prelude.{◌≡◌, refl, true, false, Option, none, some, List, [], String, get_or}
use indica_ai.Http.{resolved, get_message}
use indica_ai.Dashboard.Api.Types.{AuditEntry, AuditSummary, FraudEvaluation}
use indica_ai.Dashboard.Auditoria.{
  Tab, State, opened, Arrival, summary_came, entries_came, fraud_came, Joined, Slots, waiting,
  fulfilled, failed, arrive, loaded, World, mounted, answer, settle_from, set_tab, toggle,
}

-- What the page keeps of the three answers: all of them, or the message of the first rejection.
abbrev pub Keeps : Joined → State → Type 0
Keeps (waiting slots) s =
    (s.loading ≡ true) × (s.error ≡ none) × (s.summary ≡ none) × (s.entries ≡ []) × (s.fraud ≡ [])
Keeps (fulfilled sum e f) s =
    (s.loading ≡ false)
    × (s.error ≡ none)
    × (s.summary ≡ sum)
    × (s.entries ≡ get_or e [])
    × (s.fraud ≡ get_or f [])
Keeps (failed x) s =
    (s.loading ≡ false)
    × (s.error ≡ some (get_message x))
    × (s.summary ≡ none)
    × (s.entries ≡ [])
    × (s.fraud ≡ [])

-- What may happen next: an answer, or a click on a tab or a row.
pub data Step (w : World) : World → Type 0 where
  answered : (a : Arrival) → Step w (answer a w)
  clicked_tab : (t : Tab) → Step w (record w { page = set_tab t w.page })
  clicked_row : (id : String) → Step w (record w { page = toggle id w.page })

pub data Reach (w : World) : World → Type 0 where
  here : Reach w w
  next : {u v : World} → Reach w u → Step u v → Reach w v

loaded-Keeps :
    (slots : Slots) (j : Joined) (s : State) → Keeps (waiting slots) s → Keeps j (loaded j s)
unfolding loaded
loaded-Keeps slots (waiting t) s h = h
loaded-Keeps slots (fulfilled sum e f) s h = (refl, h.1, refl, refl, refl)
loaded-Keeps slots (failed x) s h = (refl, refl, h.2, h.3, h.4)

settle-Keeps :
    (a : Arrival) (j : Joined) (s : State)
    → Keeps j s
    → Keeps (arrive a j) (settle_from j (arrive a j) s)
unfolding arrive
settle-Keeps a (waiting slots) s h = loaded-Keeps slots (arrive a (waiting slots)) s h
settle-Keeps (summary_came r) (fulfilled sum e f) s h = h
settle-Keeps (entries_came r) (fulfilled sum e f) s h = h
settle-Keeps (fraud_came r) (fulfilled sum e f) s h = h
settle-Keeps (summary_came r) (failed x) s h = h
settle-Keeps (entries_came r) (failed x) s h = h
settle-Keeps (fraud_came r) (failed x) s h = h

set_tab-Keeps : (t : Tab) (j : Joined) (s : State) → Keeps j s → Keeps j (set_tab t s)
unfolding set_tab
set_tab-Keeps t (waiting slots) s h = h
set_tab-Keeps t (fulfilled sum e f) s h = h
set_tab-Keeps t (failed x) s h = h

toggle-Keeps : (id : String) (j : Joined) (s : State) → Keeps j s → Keeps j (toggle id s)
unfolding toggle
toggle-Keeps id (waiting slots) s h = h
toggle-Keeps id (fulfilled sum e f) s h = h
toggle-Keeps id (failed x) s h = h

Step-Keeps : {w u : World} → Step w u → Keeps w.joined w.page → Keeps u.joined u.page
unfolding answer
Step-Keeps {w} (answered a) h = settle-Keeps a w.joined w.page h
Step-Keeps {w} (clicked_tab t) h = set_tab-Keeps t w.joined w.page h
Step-Keeps {w} (clicked_row id) h = toggle-Keeps id w.joined w.page h

-- In every state that the audit page reaches, whatever is clicked meanwhile and in whatever order
-- the three answers come: until all are there it loads and shows nothing of them; then it has all
-- three; and after the first rejection it has that one's message and nothing of the others.
pub Reach-Keeps : {w : World} → Reach mounted w → Keeps w.joined w.page
unfolding mounted opened
Reach-Keeps here = (refl, refl, refl, refl, refl)
Reach-Keeps (next r st) = Step-Keeps st (Reach-Keeps r)

-- The orders in which three answers may come.
pub data Order : Type 0 where
  abc acb bac bca cab cba : Order

abbrev pub in_order {ℓ} : {A : Type ℓ} → Order → (A → A) → (A → A) → (A → A) → A → A
in_order Order.abc f g h x = h (g (f x))
in_order Order.acb f g h x = g (h (f x))
in_order Order.bac f g h x = h (f (g x))
in_order Order.bca f g h x = f (h (g x))
in_order Order.cab f g h x = g (f (h x))
in_order Order.cba f g h x = f (g (h x))

-- Three answers that resolve leave the same page in whatever order they come.
pub in_order-answer :
    (o : Order) (s : Option AuditSummary) (e : Option (List AuditEntry))
    (f : Option (List FraudEvaluation))
    → let w =
        in_order o
          (answer (summary_came (resolved s)))
          (answer (entries_came (resolved e)))
          (answer (fraud_came (resolved f)))
          mounted in
      (w.page ≡ loaded (fulfilled s e f) opened) × (w.joined ≡ fulfilled s e f)
unfolding answer mounted opened
in_order-answer Order.abc s e f = (refl, refl)
in_order-answer Order.acb s e f = (refl, refl)
in_order-answer Order.bac s e f = (refl, refl)
in_order-answer Order.bca s e f = (refl, refl)
in_order-answer Order.cab s e f = (refl, refl)
in_order-answer Order.cba s e f = (refl, refl)
