-- ===== src/Js/Regex.antt =====
-- The regular expressions of the sources, between `^` and `$`: a matcher by derivatives, and the texts
-- that each describes.
pub mod Laws
use indica_ai.Prelude.{
  ℕ, zero, suc, ◌≡◌, ◌++◌, ◌⊎◌, Bool, true, false, ◌&&◌, ◌||◌, List, [], ◌∷◌, Text, if◌then◌else◌,
}

pub data Regex : Type 0 where
  fail : Regex
  empty : Regex
  class : (ℕ → Bool) → Regex
  seq : Regex → Regex → Regex
  either : Regex → Regex → Regex
  star : Regex → Regex

-- `r+`, `r{n}` and `r{n,n+m}`.
abbrev pub plus : Regex → Regex
plus r = seq r (star r)

abbrev pub times : ℕ → Regex → Regex
times zero r = empty
times (suc n) r = seq r (times n r)

abbrev pub optional : Regex → Regex
optional r = either r empty

abbrev pub between : ℕ → ℕ → Regex → Regex
between n m r = seq (times n r) (times m (optional r))

unfoldable pub is_nullable : Regex → Bool
is_nullable fail = false
is_nullable empty = true
is_nullable (class p) = false
is_nullable (seq r s) = is_nullable r && is_nullable s
is_nullable (either r s) = is_nullable r || is_nullable s
is_nullable (star r) = true

unfoldable pub derive : ℕ → Regex → Regex
unfolding is_nullable
derive c fail = fail
derive c empty = fail
derive c (class p) = if p c then empty else fail
derive c (seq r s) =
    let first = derive c r in
    let second = derive c s in if is_nullable r then either (seq first s) second else seq first s
derive c (either r s) = either (derive c r) (derive c s)
derive c (star r) = seq (derive c r) (star r)

-- `r.test(t)` of an expression that is anchored at both ends.
unfoldable pub test : Regex → Text → Bool
unfolding is_nullable derive
test r [] = is_nullable r
test r (c ∷ t) = test (derive c r) t

-- Texts that one expression after the other describes, any number of times.
pub data Repeats (P : Text → Type 0) : Text → Type 0 where
  done : Repeats P []
  more : {u v t : Text} → P u → Repeats P v → t ≡ u ++ v → Repeats P t

-- The texts that an expression describes.
abbrev pub Matches : Regex → Text → Type 0
Matches fail t = ⊥
Matches empty t = t ≡ []
Matches (class p) t = (c : ℕ) × (t ≡ c ∷ []) × (p c ≡ true)
Matches (seq r s) t = (u v : Text) × (t ≡ u ++ v) × Matches r u × Matches s v
Matches (either r s) t = Matches r t ⊎ Matches s t
Matches (star r) t = Repeats (Matches r) t
