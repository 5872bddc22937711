-- ===== src/Toast.antt =====
-- The toast store of web/packages/ui/src/hooks/use-toast.ts: its module variables as one record,
-- with the timers that `setTimeout` holds and the hooks that are mounted. An id is
-- `String(counter)`, kept as the counter. A listener is a hook's setter, kept as the hook's number
-- with the list that it was last given. Delays are left out: any pending timer may fire.
pub mod Laws
pub mod Traces
use indica_ai.Prelude.{
  ℕ, suc, ◌+◌, ◌≡◌, Bool, not, Option, none, some, List, [], ◌∷◌, ◌++◌, map, String, ltb, ◌==◌,
  if◌then◌else◌, select, get_or,
}
use mathlib.Core.List.{Memᴰ}

pub data Variant : Type 0 where
  default success error warning destructive : Variant

pub record Toast : Type 0 where
  pub id : ℕ
  pub title : Option String
  pub description : Option String
  pub variant : Variant
  pub duration : ℕ

-- `Omit<Toast, "id">`, each part optional.
pub record Options : Type 0 where
  pub title : Option String
  pub description : Option String
  pub variant : Option Variant
  pub duration : Option ℕ

-- The function that `useToast` returns from its initialiser: it filters a setter out.
pub data Cleanup : Type 0 where
  unsubscribe : (setter : ℕ) → Cleanup

-- A mounted `useToast`: the number of its setter, the value that its second `useState` holds, and
-- the clean-ups of its effects, which are what React calls when the hook unmounts.
pub record Hook : Type 0 where
  pub number : ℕ
  pub held : Cleanup
  pub effects : List Cleanup

pub record Store : Type 0 where
  pub counter : ℕ
  pub toasts : List Toast
  pub listeners : List (ℕ × List Toast)
  pub timers : List ℕ
  pub hooks : List Hook
  pub next_hook : ℕ

abbrev pub initial : Store
initial = record {
  counter = 0;
  toasts = [];
  listeners = [];
  timers = [];
  hooks = [];
  next_hook = 0;
}

notify : Store → Store
notify s = record s { listeners = map (λ l. (l.0, s.toasts)) s.listeners }

-- `{ title, description, variant = "default", duration = 4000 }` with the id.
abbrev pub new_toast : ℕ → Options → Toast
new_toast id o = record {
  id = id;
  title = o.title;
  description = o.description;
  variant = get_or o.variant Variant.default;
  duration = get_or o.duration 4000;
}

abbrev pub add_timer : ℕ → ℕ → List ℕ → List ℕ
add_timer id duration timers = if ltb 0 duration then timers ++ id ∷ [] else timers

unfoldable pub toast : Options → Store → Store × ℕ
unfolding notify
toast o s =
    let t = new_toast (s.counter + 1) o in
    let s' = notify (record s { counter = t.id; toasts = s.toasts ++ t ∷ [] }) in
    (record s' { timers = add_timer t.id t.duration s.timers }, t.id)

abbrev pub without : ℕ → List Toast → List Toast
without id = select (λ t. not (t.id == id))

unfoldable pub dismiss_toast : ℕ → Store → Store
unfolding notify
dismiss_toast id s = notify (record s { toasts = without id s.toasts })

-- The callback of `setTimeout`, with the timer gone.
unfoldable pub fire : ℕ → Store → Store
unfolding dismiss_toast
fire id s = dismiss_toast id (record s { timers = select (λ j. not (j == id)) s.timers })

-- `useToast`: the hook's state starts as the current list, and the initialiser of its second
-- `useState` pushes the setter; what the initialiser returns becomes the state. There is no effect.
unfoldable pub mount : Store → Store
mount s = record s {
  listeners = s.listeners ++ (s.next_hook, s.toasts) ∷ [];
  hooks =
      s.hooks ++ record { number = s.next_hook; held = unsubscribe s.next_hook; effects = [] } ∷ [];
  next_hook = s.next_hook + 1;
}

-- `globalListeners.filter((l) => l !== setToasts)`.
unfoldable pub clean : Cleanup → Store → Store
clean (unsubscribe n) s = record s { listeners = select (λ l. not (l.0 == n)) s.listeners }

unfoldable pub clean_all : List Cleanup → Store → Store
unfolding clean
clean_all [] s = s
clean_all (c ∷ cs) s = clean_all cs (clean c s)

-- React calls the clean-ups of the hook's effects, and drops its state.
unfoldable pub unmount : Hook → Store → Store
unfolding clean_all
unmount h s =
    clean_all h.effects (record s { hooks = select (λ g. not (g.number == h.number)) s.hooks })

-- What a page or a timer may do next.
pub data Step (s : Store) : Store → Type 0 where
  toasted : (o : Options) → Step s (toast o s).0
  dismissed : (id : ℕ) → Step s (dismiss_toast id s)
  fired : (id : ℕ) → Memᴰ id s.timers → Step s (fire id s)
  mounted : Step s (mount s)
  unmounted : (h : Hook) → Memᴰ h s.hooks → Step s (unmount h s)

pub data Reach (s : Store) : Store → Type 0 where
  here : Reach s s
  next : {t u : Store} → Reach s t → Step t u → Reach s u
