-- ===== src/Js/Uri/Laws.antt =====
-- `decodeURIComponent` reads back what `encodeURIComponent` wrote.
use indica_ai.Prelude.{
  ℕ, ◌+◌, ◌/◌, ◌%◌, ◌<◌, ◌≡◌, refl, ap, ◌∙◌, inl, inr, true, false, some, [], ◌∷◌, ◌++◌, arith,
  Text, ltb, ◌==◌, if◌then◌else◌, All, all, All-append, Bool-cases, ◌≢◌,
}
use indica_ai.Js.Params.{percent}
use indica_ai.Js.Uri.{is_unreserved, escape, encode_uri, plain, step, emit, decode_from, decode_uri}
use indica_ai.Js.Uri.Bytes.{before, cons_step, one_byte, two_bytes, three_bytes, IsScalar}

unreserved_unit :
    (c : ℕ) (t : Text)
    → is_unreserved c ≡ true
    → decode_from plain (c ∷ t) ≡ before (c ∷ []) (decode_from plain t)
unfolding emit step
unreserved_unit c t h =
    let n : (c == b'%') ≡ false = ground arith in cons_step plain c t ∙ (rw n refl)

IsScalar-lt : (c : ℕ) → IsScalar c → c < 65536
IsScalar-lt c (inl h) = omega arith
IsScalar-lt c (inr h) = h.1

decode-escape :
    (c : ℕ) (t : Text)
    → IsScalar c
    → decode_from plain (escape c ++ t) ≡ before (c ∷ []) (decode_from plain t)
unfolding escape
decode-escape c t s = elim (Bool-cases (ltb c 128)) [
  | inl small ↦ rw (small, escape) (one_byte c t (ground arith))
  | inr large ↦ elim (Bool-cases (ltb c 2048)) [
    | inl small ↦ rw (large, small, escape) (two_bytes c t (ground arith) (ground arith))
    | inr huge ↦ rw (large, huge, escape) (three_bytes c t (ground arith) (IsScalar-lt c s) s)
  ]
]

decode_unit :
    (c : ℕ) (t : Text)
    → IsScalar c
    → decode_from plain ((if is_unreserved c then c ∷ [] else escape c) ++ t)
      ≡ before (c ∷ []) (decode_from plain t)
decode_unit c t s = elim (Bool-cases (is_unreserved c)) [
  | inl free ↦ rw free (unreserved_unit c t free)
  | inr other ↦ rw other (decode-escape c t s)
]

-- Texts without halves of pairs are read back.
pub decode_uri-encode_uri : (t : Text) → All IsScalar t → decode_uri (encode_uri t) ≡ some t
unfolding decode_uri encode_uri
decode_uri-encode_uri [] h = refl
decode_uri-encode_uri (c ∷ t) (s, h) =
    decode_unit c (encode_uri t) s ∙ ap (before (c ∷ [])) (decode_uri-encode_uri t h)

-- A unit that ends no parameter of a URL.
abbrev pub IsInner : ℕ → Type 0
IsInner c = (c ≢ b'&') × (c ≢ b'#')

percent-IsInner : (b : ℕ) → b < 256 → All IsInner (percent b)
percent-IsInner b h = ground arith

escape-IsInner : (c : ℕ) → c < 65536 → All IsInner (escape c)
unfolding escape
escape-IsInner c h = elim (Bool-cases (ltb c 128)) [
  | inl small ↦ rw small (percent-IsInner c (ground arith))
  | inr large ↦ elim (Bool-cases (ltb c 2048)) [
    | inl small ↦
        rw (large, small)
          (All-append IsInner (percent (192 + c / 64)) (percent (128 + c % 64))
            (percent-IsInner _ (ground arith)) (percent-IsInner _ (omega arith)))
    | inr huge ↦
        rw (large, huge)
          (All-append IsInner (percent (224 + c / 4096))
            (percent (128 + c / 64 % 64) ++ percent (128 + c % 64))
            (percent-IsInner _ (omega arith))
            (All-append IsInner (percent (128 + c / 64 % 64)) (percent (128 + c % 64))
              (percent-IsInner _ (omega arith)) (percent-IsInner _ (omega arith))))
  ]
]

unit-IsInner : (c : ℕ) → c < 65536 → All IsInner (if is_unreserved c then c ∷ [] else escape c)
unit-IsInner c h = elim (Bool-cases (is_unreserved c)) [
  | inl free ↦ rw free ((ground arith, ground arith), tt)
  | inr other ↦ rw other (escape-IsInner c h)
]

-- An encoded text can stand as a parameter's value.
pub encode_uri-IsInner : (t : Text) → All IsScalar t → All IsInner (encode_uri t)
unfolding encode_uri
encode_uri-IsInner [] h = tt
encode_uri-IsInner (c ∷ t) (s, h) =
    All-append IsInner _ (encode_uri t) (unit-IsInner c (IsScalar-lt c s)) (encode_uri-IsInner t h)

pub IsScalar-ascii : (t : Text) → all (λ c. ltb c 128) t ≡ true → All IsScalar t
IsScalar-ascii [] h = tt
IsScalar-ascii (c ∷ t) h = (inl (ground arith), IsScalar-ascii t (ground arith))
