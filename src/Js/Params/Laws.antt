-- ===== src/Js/Params/Laws.antt =====
-- A reader of form-urlencoded text, and lemmas about it and `to_string`.
use indica_ai.Prelude.{
  ℕ, ◌+◌, ◌-◌, ◌*◌, ◌/◌, ◌%◌, ◌<◌, ◌≡◌, ◌≢◌, refl, ap, ap₂, ◌∙◌, ◌⊎◌, inl, inr, true, List, [], ◌∷◌,
  ◌++◌, map, arith, Text, String, codes, ltb, ◌==◌, if◌then◌else◌, All, All-append, Bool-cases,
  ==_iff,
}
use indica_ai.Js.Strings.{split, Free, split-append, split_of_Free}
use indica_ai.Js.Params.{
  Params, hex_digit, percent, is_plain, encode_utf8, encode_unit, encode, pair, to_string,
}

abbrev hex_value : ℕ → ℕ
hex_value c = if ltb c 58 then c - 48 else c - 55

data Mode : Type 0 where
  plain : Mode
  high : Mode
  low : ℕ → Mode

-- The reader's loop over the units; its output is bytes.
decode_from : Mode → Text → Text
decode_from m [] = []
decode_from plain (c ∷ t) =
    let rest = decode_from (if c == b'%' then high else plain) t in
    if c == b'%' then rest else (if c == b'+' then 32 else c) ∷ rest
decode_from high (c ∷ t) = decode_from (low (hex_value c)) t
decode_from (low h) (c ∷ t) = (h * 16 + hex_value c) ∷ decode_from plain t

pub decode : Text → Text
unfolding decode_from
decode t = decode_from plain t

-- The bytes of a code unit in UTF-8.
abbrev utf8_unit : ℕ → Text
utf8_unit c =
    if ltb c 128
    then c ∷ []
    else if ltb c 2048
    then (192 + c / 64) ∷ (128 + c % 64) ∷ []
    else (224 + c / 4096) ∷ (128 + c / 64 % 64) ∷ (128 + c % 64) ∷ []

unfoldable pub utf8 : Text → Text
utf8 [] = []
utf8 (c ∷ t) = utf8_unit c ++ utf8 t

abbrev pub IsBmp : Text → Type 0
IsBmp = All (λ c. c < 65536)

hex_value-hex_digit : (d : ℕ) → d < 16 → hex_value (hex_digit d) ≡ d
hex_value-hex_digit d h = ground arith

decode-percent : (b : ℕ) (t : Text) → b < 256 → decode (percent b ++ t) ≡ b ∷ decode t
unfolding decode
decode-percent b t h = ground (arith, hex_value-hex_digit (b / 16), hex_value-hex_digit (b % 16))

decode-encode_utf8 :
    (c : ℕ) (t : Text) → c < 65536 → decode (encode_utf8 c ++ t) ≡ utf8_unit c ++ decode t
unfolding encode_utf8
decode-encode_utf8 c t h = ground (
  arith,
  decode-percent c t,
  decode-percent (192 + c / 64) (percent (128 + c % 64) ++ t),
  decode-percent (128 + c % 64) t,
  decode-percent (224 + c / 4096) (percent (128 + c / 64 % 64) ++ percent (128 + c % 64) ++ t),
  decode-percent (128 + c / 64 % 64) (percent (128 + c % 64) ++ t),
)

-- A unit that stands for itself, or for the space.
decode-plain : (c : ℕ) (t : Text) → is_plain c ≡ true → decode (c ∷ t) ≡ utf8_unit c ++ decode t
unfolding decode
decode-plain c t h = ground arith

decode-nil : decode [] ≡ []
unfolding decode
decode-nil = refl

decode-plus : (t : Text) → decode (b'+' ∷ t) ≡ 32 ∷ decode t
unfolding decode
decode-plus t = refl

decode-encode_unit :
    (c : ℕ) (t : Text) → c < 65536 → decode (encode_unit c ++ t) ≡ utf8_unit c ++ decode t
unfolding encode_unit
decode-encode_unit c t h = elim (Bool-cases (is_plain c)) [
  | inl kept ↦ rw kept (decode-plain c t kept)
  | inr other ↦ elim (Bool-cases (c == 32)) [
    | inl space ↦ rw (other, space) (rw ((==_iff c 32).0 space) (decode-plus t))
    | inr rest ↦ rw (other, rest) (decode-encode_utf8 c t h)
  ]
]

pub decode-encode : (t : Text) → IsBmp t → decode (encode t) ≡ utf8 t
unfolding encode utf8
decode-encode [] h = decode-nil
decode-encode (c ∷ t) (k, h) =
    decode-encode_unit c (encode t) k ∙ ap (λ r. utf8_unit c ++ r) (decode-encode t h)

-- The units that separate entries, keys from values, and the query from a fragment.
abbrev IsSeparator : ℕ → Type 0
IsSeparator sep = (sep ≡ b'&') ⊎ ((sep ≡ b'=') ⊎ (sep ≡ b'#'))

percent-Free : (sep b : ℕ) → IsSeparator sep → Free sep (percent b)
percent-Free sep b s = ground arith

encode_utf8-Free : (sep c : ℕ) → IsSeparator sep → Free sep (encode_utf8 c)
unfolding encode_utf8
encode_utf8-Free sep c s = ground (
  arith,
  percent-Free sep c s,
  percent-Free sep (192 + c / 64) s,
  percent-Free sep (128 + c % 64) s,
  percent-Free sep (224 + c / 4096) s,
  percent-Free sep (128 + c / 64 % 64) s,
)

encode_unit-Free : (sep c : ℕ) → IsSeparator sep → Free sep (encode_unit c)
unfolding encode_unit
encode_unit-Free sep c s = elim (Bool-cases (is_plain c)) [
  | inl kept ↦ rw kept (ground arith, tt)
  | inr other ↦ elim (Bool-cases (c == 32)) [
    | inl space ↦ rw (other, space) (ground arith, tt)
    | inr rest ↦ rw (other, rest) (encode_utf8-Free sep c s)
  ]
]

pub encode-Free : (sep : ℕ) (t : Text) → IsSeparator sep → Free sep (encode t)
unfolding encode
encode-Free sep [] s = tt
encode-Free sep (c ∷ t) s =
    All-append (λ u. u ≢ sep) (encode_unit c) (encode t) (encode_unit-Free sep c s)
      (encode-Free sep t s)

pair-Free : (p : String × Text) → Free b'&' (pair p)
unfolding pair
pair-Free (k, v) =
    All-append (λ u. u ≢ b'&') (encode (codes k)) (b'=' ∷ encode v)
      (encode-Free b'&' (codes k) (inl refl)) (omega arith, encode-Free b'&' v (inl refl))

pair-no_fragment : (p : String × Text) → Free b'#' (pair p)
unfolding pair
pair-no_fragment (k, v) =
    All-append (λ u. u ≢ b'#') (encode (codes k)) (b'=' ∷ encode v)
      (encode-Free b'#' (codes k) (inr (inr refl)))
      (omega arith, encode-Free b'#' v (inr (inr refl)))

pub to_string-no_fragment : (ps : Params) → Free b'#' (to_string ps)
unfolding to_string
to_string-no_fragment [] = tt
to_string-no_fragment (p ∷ []) = pair-no_fragment p
to_string-no_fragment (p ∷ q ∷ ps) =
    All-append (λ u. u ≢ b'#') (pair p) (b'&' ∷ to_string (q ∷ ps)) (pair-no_fragment p)
      (omega arith, to_string-no_fragment (q ∷ ps))

read_pieces : List Text → Text × Text
read_pieces [] = ([], [])
read_pieces (k ∷ []) = (decode k, [])
read_pieces (k ∷ v ∷ more) = (decode k, decode v)

read_pair : Text → Text × Text
read_pair p = read_pieces (split b'=' p)

-- What a server reads: the entries between `&`, each cut at `=` and decoded to bytes.
pub read : Text → List (Text × Text)
read q = map read_pair (split b'&' q)

abbrev pub bytes : String × Text → Text × Text
bytes (k, v) = (utf8 (codes k), utf8 v)

abbrev pub IsEncodable : Params → Type 0
IsEncodable = All (λ p. IsBmp (codes p.0) × IsBmp p.1)

read_pair-pair :
    (k : String) (v : Text) → IsBmp (codes k) → IsBmp v → read_pair (pair (k, v)) ≡ bytes (k, v)
unfolding read_pair read_pieces pair
read_pair-pair k v hk hv =
    rw
      (split-append b'=' (encode (codes k)) (encode v)
        (encode-Free b'=' (codes k) (inr (inl refl))))
      (rw (split_of_Free b'=' (encode v) (encode-Free b'=' v (inr (inl refl))))
        (rw (decode-encode (codes k) hk, decode-encode v hv)))

pub read-to_string_cons :
    (p : String × Text) (ps : Params)
    → IsEncodable (p ∷ ps)
    → read (to_string (p ∷ ps)) ≡ map bytes (p ∷ ps)
unfolding read to_string
read-to_string_cons (k, v) [] ((hk, hv), h) =
    rw (split_of_Free b'&' (pair (k, v)) (pair-Free (k, v)))
      (ap (λ r. r ∷ []) (read_pair-pair k v hk hv))
read-to_string_cons (k, v) (q ∷ ps) ((hk, hv), h) =
    rw (split-append b'&' (pair (k, v)) (to_string (q ∷ ps)) (pair-Free (k, v)))
      (ap₂ ◌∷◌ (read_pair-pair k v hk hv) (read-to_string_cons q ps h))

append-ne-nil : (c : ℕ) (s t : Text) → s ++ c ∷ t ≢ []
append-ne-nil c [] t = cc
append-ne-nil c (d ∷ s) t = cc

pub to_string-ne-nil : (p : String × Text) (ps : Params) → to_string (p ∷ ps) ≢ []
unfolding to_string pair
to_string-ne-nil (k, v) [] = append-ne-nil b'=' (encode (codes k)) (encode v)
to_string-ne-nil p (q ∷ ps) = append-ne-nil b'&' (pair p) (to_string (q ∷ ps))
