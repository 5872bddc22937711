-- ===== src/Toast/Laws.antt =====
-- The invariant of the toast store of web/packages/ui/src/hooks/use-toast.ts, operation by operation.
use indica_ai.Prelude.{
  ℕ, Bool, ◌+◌, ◌≤◌, ◌<◌, ◌≡◌, ◌≢◌, ◌⊎◌, inl, inr, refl, true, not, List, [], ◌∷◌, ◌++◌, map, arith,
  ltb, ◌==◌, select, All, All-select, All-concat, Bool-cases,
}
use mathlib.Core.List.{Memᴰ}
use indica_ai.Toast.{
  Toast, Options, Store, initial, new_toast, add_timer, toast, without, dismiss_toast, fire, mount,
  unmount, Cleanup, unsubscribe, Hook, clean, clean_all,
}

-- The ids rise from above `lo` and stay within `hi`.
abbrev pub Rising : ℕ → List Toast → ℕ → Type 0
Rising lo [] hi = lo ≤ hi
Rising lo (t ∷ ts) hi = (lo < t.id) × Rising t.id ts hi

-- A toast that stays until it is dismissed, or has its timer running.
abbrev pub IsTimed : List ℕ → Toast → Type 0
IsTimed timers t = (t.duration ≡ 0) ⊎ Memᴰ t.id timers

-- The listener was last given the list.
abbrev pub IsCurrent : List Toast → ℕ × List Toast → Type 0
IsCurrent ts l = l.1 ≡ ts

pub record IsValid (s : Store) : Type 0 where
  pub rising : Rising 0 s.toasts s.counter
  pub notified : All (IsCurrent s.toasts) s.listeners
  pub timed : All (IsTimed s.timers) s.toasts

pub initial-IsValid : IsValid initial
initial-IsValid = record { rising = omega arith; notified = tt; timed = tt }

Rising-weaken :
    (lo lo' : ℕ) (ts : List Toast) (hi : ℕ) → lo' ≤ lo → Rising lo ts hi → Rising lo' ts hi
Rising-weaken lo lo' [] hi h r = omega arith
Rising-weaken lo lo' (t ∷ ts) hi h (p, r) = (omega arith, r)

Rising-select :
    (p : Toast → Bool) (lo : ℕ) (ts : List Toast) (hi : ℕ)
    → Rising lo ts hi
    → Rising lo (select p ts) hi
Rising-select p lo [] hi r = r
Rising-select p lo (t ∷ ts) hi (q, r) = elim (Bool-cases (p t)) [
  | inl kept ↦ rw kept (q, Rising-select p t.id ts hi r)
  | inr gone ↦
      rw gone (Rising-weaken t.id lo (select p ts) hi (omega arith) (Rising-select p t.id ts hi r))
]

Rising-concat :
    (lo : ℕ) (ts : List Toast) (hi : ℕ) (t : Toast)
    → hi < t.id
    → Rising lo ts hi
    → Rising lo (ts ++ t ∷ []) t.id
Rising-concat lo [] hi t e r = (omega arith, omega arith)
Rising-concat lo (u ∷ ts) hi t e (q, r) = (q, Rising-concat u.id ts hi t e r)

-- After `notify` every listener has the current list.
notified-map :
    (ts : List Toast) (ls : List (ℕ × List Toast)) → All (IsCurrent ts) (map (λ l. (l.0, ts)) ls)
notified-map ts [] = tt
notified-map ts (l ∷ ls) = (refl, notified-map ts ls)

All-mono :
    (P Q : Toast → Type 0) (ts : List Toast) → ((t : Toast) → P t → Q t) → All P ts → All Q ts
All-mono P Q [] f h = tt
All-mono P Q (t ∷ ts) f (p, h) = (f t p, All-mono P Q ts f h)

mem-concat : (id : ℕ) (xs : List ℕ) (y : ℕ) → Memᴰ id xs → Memᴰ id (xs ++ y ∷ [])
mem-concat id [] y m = elim m [ ]
mem-concat id (x ∷ xs) y (Memᴰ.head e) = Memᴰ.head e
mem-concat id (x ∷ xs) y (Memᴰ.tail m) = Memᴰ.tail (mem-concat id xs y m)

mem-concat_last : (xs : List ℕ) (y : ℕ) → Memᴰ y (xs ++ y ∷ [])
mem-concat_last [] y = Memᴰ.head refl
mem-concat_last (x ∷ xs) y = Memᴰ.tail (mem-concat_last xs y)

IsTimed-concat :
    (timers : List ℕ) (id : ℕ) (t : Toast) → IsTimed timers t → IsTimed (timers ++ id ∷ []) t
IsTimed-concat timers id t (inl stays) = inl stays
IsTimed-concat timers id t (inr m) = inr (mem-concat t.id timers id m)

-- A new timer disturbs no other toast, and serves its own.
IsTimed-add :
    (timers : List ℕ) (id d : ℕ) (t : Toast) → IsTimed timers t → IsTimed (add_timer id d timers) t
IsTimed-add timers id d t h = elim (Bool-cases (ltb 0 d)) [
  | inl runs ↦ rw runs (IsTimed-concat timers id t h)
  | inr stays ↦ rw stays h
]

IsTimed-new : (timers : List ℕ) (t : Toast) → IsTimed (add_timer t.id t.duration timers) t
IsTimed-new timers t = elim (Bool-cases (ltb 0 t.duration)) [
  | inl runs ↦ rw runs (inr (mem-concat_last timers t.id))
  | inr stays ↦ inl (ground arith)
]

pub toast-IsValid : (o : Options) (s : Store) → IsValid s → IsValid (toast o s).0
unfolding toast
toast-IsValid o s v =
    let t : Toast = new_toast (s.counter + 1) o in
    record {
      rising = Rising-concat 0 s.toasts s.counter t (omega arith) v.rising;
      notified = notified-map (s.toasts ++ t ∷ []) s.listeners;
      timed =
          All-concat (IsTimed (add_timer t.id t.duration s.timers)) s.toasts
            (All-mono (IsTimed s.timers) (IsTimed (add_timer t.id t.duration s.timers)) s.toasts
              (IsTimed-add s.timers t.id t.duration) v.timed)
            (IsTimed-new s.timers t);
    }

pub dismiss_toast-IsValid : (id : ℕ) (s : Store) → IsValid s → IsValid (dismiss_toast id s)
unfolding dismiss_toast
dismiss_toast-IsValid id s v = record {
  rising = Rising-select (λ t. not (t.id == id)) 0 s.toasts s.counter v.rising;
  notified = notified-map (without id s.toasts) s.listeners;
  timed = All-select (IsTimed s.timers) (λ t. not (t.id == id)) s.toasts v.timed;
}

mem-select_ne :
    (id j : ℕ) (xs : List ℕ) → j ≢ id → Memᴰ j xs → Memᴰ j (select (λ k. not (k == id)) xs)
mem-select_ne id j [] n m = elim m [ ]
mem-select_ne id j (x ∷ xs) n (Memᴰ.head e) =
    let kept : not (x == id) ≡ true = ground arith in rw kept (Memᴰ.head e)
mem-select_ne id j (x ∷ xs) n (Memᴰ.tail m) = elim (Bool-cases (not (x == id))) [
  | inl kept ↦ rw kept (Memᴰ.tail (mem-select_ne id j xs n m))
  | inr gone ↦ rw gone (mem-select_ne id j xs n m)
]

IsTimed-fire :
    (id : ℕ) (timers : List ℕ) (t : Toast)
    → t.id ≢ id
    → IsTimed timers t
    → IsTimed (select (λ j. not (j == id)) timers) t
IsTimed-fire id timers t n (inl stays) = inl stays
IsTimed-fire id timers t n (inr m) = inr (mem-select_ne id t.id timers n m)

All-fire :
    (id : ℕ) (timers : List ℕ) (ts : List Toast)
    → All (IsTimed timers) ts
    → All (IsTimed (select (λ j. not (j == id)) timers)) (without id ts)
All-fire id timers [] h = tt
All-fire id timers (t ∷ ts) (p, h) = elim (Bool-cases (t.id == id)) [
  | inl same ↦ rw same (All-fire id timers ts h)
  | inr other ↦ rw other (IsTimed-fire id timers t (ground arith) p, All-fire id timers ts h)
]

pub fire-IsValid : (id : ℕ) (s : Store) → IsValid s → IsValid (fire id s)
unfolding fire
fire-IsValid id s v = record {
  rising = Rising-select (λ t. not (t.id == id)) 0 s.toasts s.counter v.rising;
  notified = notified-map (without id s.toasts) s.listeners;
  timed = All-fire id s.timers s.toasts v.timed;
}

pub mount-IsValid : (s : Store) → IsValid s → IsValid (mount s)
unfolding mount
mount-IsValid s v = record {
  rising = v.rising;
  notified = All-concat (IsCurrent s.toasts) s.listeners v.notified refl;
  timed = v.timed;
}

clean-IsValid : (c : Cleanup) (s : Store) → IsValid s → IsValid (clean c s)
unfolding clean
clean-IsValid (unsubscribe n) s v = record {
  rising = v.rising;
  notified = All-select (IsCurrent s.toasts) (λ l. not (l.0 == n)) s.listeners v.notified;
  timed = v.timed;
}

clean_all-IsValid : (cs : List Cleanup) (s : Store) → IsValid s → IsValid (clean_all cs s)
unfolding clean_all
clean_all-IsValid [] s v = v
clean_all-IsValid (c ∷ cs) s v = clean_all-IsValid cs (clean c s) (clean-IsValid c s v)

pub unmount-IsValid : (h : Hook) (s : Store) → IsValid s → IsValid (unmount h s)
unfolding unmount
unmount-IsValid h s v =
    clean_all-IsValid h.effects
      (record s { hooks = select (λ g. not (g.number == h.number)) s.hooks })
      (record { rising = v.rising; notified = v.notified; timed = v.timed })
