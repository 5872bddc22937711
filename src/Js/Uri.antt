-- ===== src/Js/Uri.antt =====
-- `encodeURIComponent` and `decodeURIComponent`. Lone surrogates, at which the first one throws, and
-- pairs are left out of the encoder; the decoder is none where the function throws.
pub mod Bytes
pub mod Laws
use indica_ai.Prelude.{
  ℕ, ◌+◌, ◌-◌, ◌*◌, ◌/◌, ◌%◌, ◌≡◌, refl, Bool, true, ◌&&◌, ◌||◌, Option, none, some, [], ◌∷◌, ◌++◌,
  arith, Text, ltb, leb, ◌==◌, if◌then◌else◌, All,
}
use mathlib.Core.Option
use indica_ai.Js.Strings.{Free}
use indica_ai.Js.Params.{percent}

abbrev pub is_unreserved : ℕ → Bool
is_unreserved c =
    leb 48 c && leb c 57
    || leb 65 c && leb c 90
    || leb 97 c && leb c 122
    || c == 45
    || c == 95
    || c == 46
    || c == 33
    || c == 126
    || leb 39 c && leb c 42

escape : ℕ → Text
escape c =
    if ltb c 128
    then percent c
    else if ltb c 2048
    then percent (192 + c / 64) ++ percent (128 + c % 64)
    else percent (224 + c / 4096) ++ percent (128 + c / 64 % 64) ++ percent (128 + c % 64)

unfoldable pub encode_uri : Text → Text
unfolding escape
encode_uri [] = []
encode_uri (c ∷ t) = (if is_unreserved c then c ∷ [] else escape c) ++ encode_uri t

abbrev pub is_hex : ℕ → Bool
is_hex c = leb 48 c && leb c 57 || leb 65 c && leb c 70 || leb 97 c && leb c 102

hex_value : ℕ → ℕ
hex_value c = if ltb c 58 then c - 48 else if ltb c 71 then c - 55 else c - 87

-- Where the decoder stands: outside an escape, behind `%`, behind its first digit, or before the
-- `%` of a continuation byte. `need` bytes are still to come, the next within `lo` and `hi`.
pub data Mode : Type 0 where
  plain : Mode
  first : (need acc lo hi : ℕ) → Mode
  second : (need acc lo hi digit : ℕ) → Mode
  between : (need acc lo hi : ℕ) → Mode
  failed : Mode

-- A byte that begins a sequence, and one that continues it.
lead : ℕ → Mode
lead b =
    if ltb b 128
    then plain
    else if ltb b 194
    then failed
    else if ltb b 224
    then between 1 (b - 192) 128 191
    else if ltb b 240
    then between 2 (b - 224) (if b == 224 then 160 else 128) (if b == 237 then 159 else 191)
    else if ltb b 245
    then between 3 (b - 240) (if b == 240 then 144 else 128) (if b == 244 then 143 else 191)
    else failed

take_byte : ℕ → ℕ → ℕ → ℕ → ℕ → Mode
unfolding lead
take_byte need acc lo hi b =
    if need == 0
    then lead b
    else if leb lo b && leb b hi
    then if need == 1 then plain else between (need - 1) (acc * 64 + (b - 128)) 128 191
    else failed

unfoldable pub step : Mode → ℕ → Mode
unfolding take_byte hex_value
step plain c = if c == b'%' then first 0 0 0 255 else plain
step (first n a lo hi) c = if is_hex c then second n a lo hi (hex_value c) else failed
step (second n a lo hi d) c =
    if is_hex c then take_byte n a lo hi (d * 16 + hex_value c) else failed
step (between n a lo hi) c = if c == b'%' then first n a lo hi else failed
step failed c = failed

-- The units of a code point.
units : ℕ → Text
units p =
    if ltb p 65536 then p ∷ [] else (55296 + (p - 65536) / 1024) ∷ (56320 + (p - 65536) % 1024) ∷ []

-- What a unit adds to the result: itself outside an escape, or the code point that it completes.
unfoldable pub emit : Mode → ℕ → Text
unfolding units hex_value
emit plain c = if c == b'%' then [] else c ∷ []
emit (second n a lo hi d) c =
    let b = d * 16 + hex_value c in
    if n == 0
    then if ltb b 128 then b ∷ [] else []
    else if n == 1
    then units (a * 64 + (b - 128))
    else []
emit _ c = []

unfoldable pub decode_from : Mode → Text → Option Text
unfolding step emit
decode_from plain [] = some []
decode_from _ [] = none
decode_from m (c ∷ t) = Option.map (λ rest. emit m c ++ rest) (decode_from (step m c) t)

unfoldable pub decode_uri : Text → Option Text
unfolding decode_from
decode_uri t = decode_from plain t

-- A text with no `%` is its own decoding.
pub decode_uri_of_Free : (t : Text) → Free b'%' t → decode_uri t ≡ some t
unfolding decode_uri
decode_uri_of_Free [] h = refl
decode_uri_of_Free (c ∷ t) (n, h) = ground (arith, decode_uri_of_Free t h)

pub encode_uri_of_unreserved : (t : Text) → All (λ c. is_unreserved c ≡ true) t → encode_uri t ≡ t
unfolding encode_uri
encode_uri_of_unreserved [] h = refl
encode_uri_of_unreserved (c ∷ t) (k, h) = rw (k, encode_uri_of_unreserved t h)
