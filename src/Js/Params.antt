-- ===== src/Js/Params.antt =====
-- `URLSearchParams`: `set`, and `toString` as application/x-www-form-urlencoded. Code units are
-- encoded as UTF-8; surrogate pairs are left out.
pub mod Laws
use indica_ai.Prelude.{
  ℕ, ◌+◌, ◌/◌, ◌%◌, Bool, ◌&&◌, ◌||◌, List, [], ◌∷◌, ◌++◌, Text, String, codes, str_eq, ltb, leb,
  ◌==◌, if◌then◌else◌,
}

abbrev pub Params : Type 0
Params = List (String × Text)

-- `params.set(k, v)`: the first entry for `k` is overwritten and later ones go, or one is added.
remove : String → Params → Params
remove k [] = []
remove k ((j, w) ∷ ps) = if str_eq j k then remove k ps else (j, w) ∷ remove k ps

unfoldable pub set : String → Text → Params → Params
unfolding remove
set k v [] = (k, v) ∷ []
set k v ((j, w) ∷ ps) = if str_eq j k then (k, v) ∷ remove k ps else (j, w) ∷ set k v ps

abbrev pub hex_digit : ℕ → ℕ
hex_digit d = if ltb d 10 then b'0' + d else 55 + d

abbrev pub percent : ℕ → Text
percent b = b'%' ∷ hex_digit (b / 16) ∷ hex_digit (b % 16) ∷ []

-- What the encoder leaves as it is: letters, digits and `* - . _`.
abbrev pub is_plain : ℕ → Bool
is_plain c =
    leb 48 c && leb c 57
    || leb 65 c && leb c 90
    || leb 97 c && leb c 122
    || c == 42
    || c == 45
    || c == 46
    || c == 95

encode_utf8 : ℕ → Text
encode_utf8 c =
    if ltb c 128
    then percent c
    else if ltb c 2048
    then percent (192 + c / 64) ++ percent (128 + c % 64)
    else percent (224 + c / 4096) ++ percent (128 + c / 64 % 64) ++ percent (128 + c % 64)

unfoldable pub encode_unit : ℕ → Text
unfolding encode_utf8
encode_unit c = if is_plain c then c ∷ [] else if c == 32 then b'+' ∷ [] else encode_utf8 c

unfoldable pub encode : Text → Text
unfolding encode_unit
encode [] = []
encode (c ∷ t) = encode_unit c ++ encode t

unfoldable pub pair : String × Text → Text
unfolding encode
pair (k, v) = encode (codes k) ++ b'=' ∷ encode v

unfoldable pub to_string : Params → Text
unfolding pair
to_string [] = []
to_string (p ∷ []) = pair p
to_string (p ∷ q ∷ ps) = pair p ++ b'&' ∷ to_string (q ∷ ps)
