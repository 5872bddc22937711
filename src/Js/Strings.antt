-- ===== src/Js/Strings.antt =====
-- `trim`, `toLowerCase`, `includes`, `startsWith`, `split` and the character classes of the
-- sources' regular expressions. Lower case covers ASCII and Latin-1, which Portuguese is written in.
pub mod Laws
use indica_ai.Prelude.{
  ℕ, ◌+◌, ◌≡◌, ◌≢◌, refl, Bool, true, false, ◌&&◌, ◌||◌, not, List, [], ◌∷◌, ◌++◌, map, arith, Text,
  leb, ◌==◌, if◌then◌else◌, All,
}

-- `\d`.
abbrev pub is_digit : ℕ → Bool
is_digit c = leb b'0' c && leb c b'9'

-- The white space that `trim` and `\s` know.
unfoldable pub is_space : ℕ → Bool
is_space c =
    leb 9 c && leb c 13
    || c == 32
    || c == 160
    || c == 5760
    || leb 8192 c && leb c 8202
    || c == 8232
    || c == 8233
    || c == 8239
    || c == 8287
    || c == 12288
    || c == 65279

abbrev pub is_empty : Text → Bool
is_empty [] = true
is_empty (c ∷ t) = false

unfoldable pub trim_start : Text → Text
trim_start [] = []
trim_start (c ∷ t) = if is_space c then trim_start t else c ∷ t

unfoldable pub trim_end : Text → Text
trim_end [] = []
trim_end (c ∷ t) = let rest = trim_end t in if is_space c && is_empty rest then [] else c ∷ rest

unfoldable pub trim : Text → Text
unfolding trim_start trim_end is_space
trim t = trim_end (trim_start t)

abbrev pub lower_unit : ℕ → ℕ
lower_unit c =
    if leb 65 c && leb c 90 || leb 192 c && leb c 222 && not (c == 215) then c + 32 else c

unfoldable pub lower : Text → Text
lower t = map lower_unit t

unfoldable pub starts_with : Text → Text → Bool
starts_with t [] = true
starts_with [] (d ∷ p) = false
starts_with (c ∷ t) (d ∷ p) = c == d && starts_with t p

unfoldable pub includes : Text → Text → Bool
unfolding starts_with
includes [] p = is_empty p
includes (c ∷ t) p = starts_with (c ∷ t) p || includes t p

abbrev push : ℕ → List Text → List Text
push c [] = (c ∷ []) ∷ []
push c (p ∷ ps) = (c ∷ p) ∷ ps

-- `t.split(sep)` for a separator of one code unit.
unfoldable pub split : ℕ → Text → List Text
split sep [] = [] ∷ []
split sep (c ∷ t) = if c == sep then [] ∷ split sep t else push c (split sep t)

abbrev pub Free : ℕ → Text → Type 0
Free sep = All (λ c. c ≢ sep)

-- Where the first piece has no separator, `split` cuts behind it.
pub split-append : (sep : ℕ) (a b : Text) → Free sep a → split sep (a ++ sep ∷ b) ≡ a ∷ split sep b
unfolding split
split-append sep [] b h = ground arith
split-append sep (c ∷ a) b (n, h) = ground (arith, split-append sep a b h)

pub split_of_Free : (sep : ℕ) (a : Text) → Free sep a → split sep a ≡ a ∷ []
unfolding split
split_of_Free sep [] h = refl
split_of_Free sep (c ∷ a) (n, h) = ground (arith, split_of_Free sep a h)

-- `lower` changes nothing the second time.
pub lower_idempotent : (t : Text) → lower (lower t) ≡ lower t
unfolding lower
lower_idempotent [] = refl
lower_idempotent (c ∷ t) = ground (arith, lower_idempotent t)
