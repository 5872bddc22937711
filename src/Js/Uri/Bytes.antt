-- ===== src/Js/Uri/Bytes.antt =====
-- The bytes of an escape, as `decodeURIComponent` reads them.
use mathlib.Core.Option
use indica_ai.Prelude.{
  ℕ, ◌+◌, ◌-◌, ◌*◌, ◌/◌, ◌%◌, ◌<◌, ◌≤◌, ◌≡◌, ◌⊎◌, refl, ap, ◌∙◌, inl, inr, true, Option, none, some,
  [], ◌∷◌, ◌++◌, arith, Text, ltb, ◌==◌, if◌then◌else◌,
}
use indica_ai.Js.Params.{hex_digit, percent}
use indica_ai.Js.Uri.{
  is_hex, hex_value, Mode, plain, first, second, between, lead, take_byte, step, units, emit,
  decode_from,
}

is_hex-hex_digit : (d : ℕ) → d < 16 → is_hex (hex_digit d) ≡ true
is_hex-hex_digit d h = ground arith

hex_value-hex_digit : (d : ℕ) → d < 16 → hex_value (hex_digit d) ≡ d
unfolding hex_value
hex_value-hex_digit d h = ground arith

-- A text put before what is decoded, if anything is.
abbrev pub before : Text → Option Text → Option Text
before t o = Option.map (λ rest. t ++ rest) o

-- What a whole byte adds, behind its escape.
abbrev emit_byte : ℕ → ℕ → ℕ → Text
emit_byte n a b =
    if n == 0
    then if ltb b 128 then b ∷ [] else []
    else if n == 1
    then units (a * 64 + (b - 128))
    else []

second_digit :
    (n a lo hi b : ℕ)
    → b < 256
    → (emit (second n a lo hi (b / 16)) (hex_digit (b % 16)) ≡ emit_byte n a b)
      × (step (second n a lo hi (b / 16)) (hex_digit (b % 16)) ≡ take_byte n a lo hi b)
unfolding emit step
second_digit n a lo hi b h =
    let v = hex_value-hex_digit (b % 16) (omega arith) in
    let x = is_hex-hex_digit (b % 16) (omega arith) in
    let e : b / 16 * 16 + b % 16 ≡ b = omega arith in rw (v, x, e) (refl, refl)

first_digit :
    (n a lo hi b : ℕ)
    → b < 256
    → (emit (first n a lo hi) (hex_digit (b / 16)) ≡ [])
      × (step (first n a lo hi) (hex_digit (b / 16)) ≡ second n a lo hi (b / 16))
unfolding emit step
first_digit n a lo hi b h =
    let v = hex_value-hex_digit (b / 16) (omega arith) in
    let x = is_hex-hex_digit (b / 16) (omega arith) in rw (v, x) (refl, refl)

before_nil : (o : Option Text) → before [] o ≡ o
before_nil none = refl
before_nil (some t) = refl

-- One step of the decoder, where the text does not end.
pub cons_step :
    (m : Mode) (c : ℕ) (t : Text)
    → decode_from m (c ∷ t) ≡ before (emit m c) (decode_from (step m c) t)
unfolding decode_from
cons_step plain c t = refl
cons_step (first n a lo hi) c t = refl
cons_step (second n a lo hi d) c t = refl
cons_step (between n a lo hi) c t = refl
cons_step Mode.failed c t = refl

silent_step :
    (m k : Mode) (c : ℕ) (t : Text)
    → emit m c ≡ []
    → step m c ≡ k
    → decode_from m (c ∷ t) ≡ decode_from k t
silent_step m k c t e f =
    cons_step m c t
    ∙ ap (λ x. before x (decode_from (step m c) t)) e
    ∙ before_nil (decode_from (step m c) t)
    ∙ ap (λ x. decode_from x t) f

-- The escape of a byte, in a mode that may read one.
decode-percent :
    (m : Mode) (n a lo hi b : ℕ) (t : Text)
    → emit m b'%' ≡ []
    → step m b'%' ≡ first n a lo hi
    → b < 256
    → decode_from m (percent b ++ t)
      ≡ before (emit_byte n a b) (decode_from (take_byte n a lo hi b) t)
decode-percent m n a lo hi b t e f h =
    let (e1, f1) = first_digit n a lo hi b h in
    let (e2, f2) = second_digit n a lo hi b h in
    silent_step m (first n a lo hi) b'%' _ e f
    ∙ silent_step (first n a lo hi) (second n a lo hi (b / 16)) (hex_digit (b / 16)) _ e1 f1
    ∙ cons_step (second n a lo hi (b / 16)) (hex_digit (b % 16)) t
    ∙ ap (λ x. before x (decode_from (step (second n a lo hi (b / 16)) (hex_digit (b % 16))) t)) e2
    ∙ ap (λ k. before (emit_byte n a b) (decode_from k t)) f2

plain-percent :
    (b : ℕ) (t : Text)
    → b < 256
    → decode_from plain (percent b ++ t) ≡ before (emit_byte 0 0 b) (decode_from (lead b) t)
unfolding take_byte emit step
plain-percent b t h = decode-percent plain 0 0 0 255 b t refl refl h

between-percent :
    (n a lo hi b : ℕ) (t : Text)
    → b < 256
    → decode_from (between n a lo hi) (percent b ++ t)
      ≡ before (emit_byte n a b) (decode_from (take_byte n a lo hi b) t)
unfolding emit step
between-percent n a lo hi b t h = decode-percent (between n a lo hi) n a lo hi b t refl refl h

-- A byte of ASCII, and the two bytes and three bytes of a unit above it.
pub one_byte :
    (c : ℕ) (t : Text)
    → c < 128
    → decode_from plain (percent c ++ t) ≡ before (c ∷ []) (decode_from plain t)
unfolding lead
one_byte c t h = plain-percent c t (omega arith) ∙ (ground arith)

lead_two : (c : ℕ) → 128 ≤ c → c < 2048 → lead (192 + c / 64) ≡ between 1 (c / 64) 128 191
unfolding lead
lead_two c h k = ground arith

last_byte :
    (a c : ℕ) (t : Text)
    → a * 64 + c % 64 ≡ c
    → c < 65536
    → decode_from (between 1 a 128 191) (percent (128 + c % 64) ++ t)
      ≡ before (c ∷ []) (decode_from plain t)
unfolding take_byte units
last_byte a c t e h = between-percent 1 a 128 191 (128 + c % 64) t (omega arith) ∙ (ground arith)

-- A byte that adds nothing yet.
silent_byte :
    (m k : Mode) (x : Text) (t : Text) (o : Option Text)
    → o ≡ before x (decode_from m t)
    → x ≡ []
    → m ≡ k
    → o ≡ decode_from k t
silent_byte m k x t o e f g =
    e
    ∙ ap (λ y. before y (decode_from m t)) f
    ∙ before_nil (decode_from m t)
    ∙ ap (λ j. decode_from j t) g

pub two_bytes :
    (c : ℕ) (t : Text)
    → 128 ≤ c
    → c < 2048
    → decode_from plain (percent (192 + c / 64) ++ (percent (128 + c % 64) ++ t))
      ≡ before (c ∷ []) (decode_from plain t)
two_bytes c t h k =
    silent_byte (lead (192 + c / 64)) (between 1 (c / 64) 128 191) _ _ _
      (plain-percent (192 + c / 64) _ (omega arith)) (ground arith) (lead_two c h k)
    ∙ last_byte (c / 64) c t (omega arith) (omega arith)

-- No half of a surrogate pair.
abbrev pub IsScalar : ℕ → Type 0
IsScalar c = (c < 55296) ⊎ ((57344 ≤ c) × (c < 65536))

lower_bound : ℕ → ℕ
lower_bound b = if b == 224 then 160 else 128

upper_bound : ℕ → ℕ
upper_bound b = if b == 237 then 159 else 191

lead_three :
    (c : ℕ)
    → 2048 ≤ c
    → c < 65536
    → lead (224 + c / 4096)
      ≡ between 2 (c / 4096) (lower_bound (224 + c / 4096)) (upper_bound (224 + c / 4096))
unfolding lead lower_bound upper_bound
lead_three c h k = ground arith

middle_byte :
    (c : ℕ)
    → 2048 ≤ c
    → IsScalar c
    → take_byte 2
        (c / 4096)
        (lower_bound (224 + c / 4096))
        (upper_bound (224 + c / 4096))
        (128 + c / 64 % 64)
      ≡ between 1 (c / 64) 128 191
unfolding take_byte lower_bound upper_bound
middle_byte c h (inl k) = ground arith
middle_byte c h (inr k) = ground arith

pub three_bytes :
    (c : ℕ) (t : Text)
    → 2048 ≤ c
    → c < 65536
    → IsScalar c
    → decode_from plain
        (percent (224 + c / 4096) ++ (percent (128 + c / 64 % 64) ++ (percent (128 + c % 64) ++ t)))
      ≡ before (c ∷ []) (decode_from plain t)
three_bytes c t h k s =
    silent_byte (lead (224 + c / 4096)) _ _ _ _ (plain-percent (224 + c / 4096) _ (omega arith))
      (ground arith) (lead_three c h k)
    ∙ silent_byte _ (between 1 (c / 64) 128 191) _ _ _
        (between-percent 2 (c / 4096) (lower_bound (224 + c / 4096)) (upper_bound (224 + c / 4096))
          (128 + c / 64 % 64) _ (omega arith))
        refl (middle_byte c h s)
    ∙ last_byte (c / 64) c t (omega arith) k
