-- ===== src/Toast/Traces.antt =====
-- The sequences of operations of the toast store of web/packages/ui/src/hooks/use-toast.ts.
use indica_ai.Prelude.{
  ℕ, ◌+◌, ◌≤◌, ◌<◌, ◌≡◌, ◌≢◌, inl, inr, List, [], ◌∷◌, ◌++◌, arith, ◌==◌, All, Bool-cases,
}
use mathlib.Core.List.{Memᴰ}
use indica_ai.Toast.{
  Toast, Options, Store, initial, new_toast, toast, without, dismiss_toast, fire, Step, toasted,
  dismissed, fired, mounted, unmounted, Reach, here, next,
}
use indica_ai.Toast.Laws.{
  Rising, IsTimed, IsValid, initial-IsValid, toast-IsValid, dismiss_toast-IsValid, fire-IsValid,
  mount-IsValid, unmount-IsValid,
}

Step-IsValid : {s t : Store} → Step s t → IsValid s → IsValid t
Step-IsValid {s} (toasted o) v = toast-IsValid o s v
Step-IsValid {s} (dismissed id) v = dismiss_toast-IsValid id s v
Step-IsValid {s} (fired id m) v = fire-IsValid id s v
Step-IsValid {s} mounted v = mount-IsValid s v
Step-IsValid {s} (unmounted h m) v = unmount-IsValid h s v

-- In every toast store that is reached from the empty one the ids of the toasts rise and stay
-- within the counter, every listener holds the current list, and each toast with a duration has its
-- timer pending.
pub Reach-IsValid : {s : Store} → Reach initial s → IsValid s
Reach-IsValid here = initial-IsValid
Reach-IsValid (next r st) = Step-IsValid st (Reach-IsValid r)

Rising-le : (lo : ℕ) (ts : List Toast) (hi : ℕ) → Rising lo ts hi → lo ≤ hi
Rising-le lo [] hi r = r
Rising-le lo (t ∷ ts) hi (p, r) = omega (arith, Rising-le t.id ts hi r)

without-concat :
    (lo : ℕ) (ts : List Toast) (hi : ℕ) (t : Toast)
    → Rising lo ts hi
    → hi < t.id
    → without t.id (ts ++ t ∷ []) ≡ ts
without-concat lo [] hi t r h = ground arith
without-concat lo (u ∷ ts) hi t (p, r) h =
    ground (arith, without-concat u.id ts hi t r h, Rising-le u.id ts hi r)

-- In a valid toast store, dismissing a toast by the id that `toast` returned leaves the toasts as
-- they were before it.
pub dismiss_toast-toast :
    (o : Options) (s : Store)
    → IsValid s
    → (dismiss_toast (toast o s).1 (toast o s).0).toasts ≡ s.toasts
unfolding toast dismiss_toast
dismiss_toast-toast o s v =
    without-concat 0 s.toasts s.counter (new_toast (s.counter + 1) o) v.rising (omega arith)

-- The timers run out one after the other.
pub drain : List ℕ → Store → Store
drain [] s = s
drain (id ∷ ids) s = drain ids (fire id s)

IsTimed-tail :
    (id : ℕ) (ids : List ℕ) (t : Toast) → t.id ≢ id → IsTimed (id ∷ ids) t → IsTimed ids t
IsTimed-tail id ids t n (inl stays) = inl stays
IsTimed-tail id ids t n (inr (Memᴰ.head e)) = absurd (n e)
IsTimed-tail id ids t n (inr (Memᴰ.tail m)) = inr m

All-tail :
    (id : ℕ) (ids : List ℕ) (ts : List Toast)
    → All (IsTimed (id ∷ ids)) ts
    → All (IsTimed ids) (without id ts)
All-tail id ids [] h = tt
All-tail id ids (t ∷ ts) (p, h) = elim (Bool-cases (t.id == id)) [
  | inl same ↦ rw same (All-tail id ids ts h)
  | inr other ↦ rw other (IsTimed-tail id ids t (ground arith) p, All-tail id ids ts h)
]

IsTimed-nil : (t : Toast) → IsTimed [] t → t.duration ≡ 0
IsTimed-nil t (inl stays) = stays
IsTimed-nil t (inr m) = elim m [ ]

All-nil : (ts : List Toast) → All (IsTimed []) ts → All (λ t. t.duration ≡ 0) ts
All-nil [] h = tt
All-nil (t ∷ ts) (p, h) = (IsTimed-nil t p, All-nil ts h)

drain-All :
    (ids : List ℕ) (s : Store)
    → All (IsTimed ids) s.toasts
    → All (λ t. t.duration ≡ 0) (drain ids s).toasts
unfolding drain fire
drain-All [] s h = All-nil s.toasts h
drain-All (id ∷ ids) s h = drain-All ids (fire id s) (All-tail id ids s.toasts h)

-- In a valid toast store, once the pending timers have all run out, only toasts with a duration of
-- 0 are left.
pub drain-timers : (s : Store) → IsValid s → All (λ t. t.duration ≡ 0) (drain s.timers s).toasts
drain-timers s v = drain-All s.timers s v.timed
