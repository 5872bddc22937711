-- ===== src/Js/Decimal.antt =====
-- `String(n)` for a natural number: its decimal digits.
use Prim.Native.String
use indica_ai.Prelude.{
  String, ◌==◌, ℕ, zero, suc, ◌+◌, ◌-◌, ◌*◌, ◌/◌, ◌%◌, ◌<◌, ◌≡◌, refl, inl, inr, [], ◌∷◌, ◌++◌,
  arith, Text, ltb, if◌then◌else◌, All, All-concat, true, Bool-cases,
}
use indica_ai.Js.Strings.{is_digit}

-- With fuel above `n`, which `decimal` gives.
decimal_from : ℕ → ℕ → Text
decimal_from zero n = []
decimal_from (suc f) n =
    let more = decimal_from f (n / 10) in
    if ltb n 10 then (b'0' + n) ∷ [] else more ++ (b'0' + n % 10) ∷ []

unfoldable pub decimal : ℕ → Text
unfolding decimal_from
decimal n = decimal_from (suc n) n

-- The number that a run of digits stands for.
unfoldable pub value_from : ℕ → Text → ℕ
value_from acc [] = acc
value_from acc (c ∷ t) = value_from (acc * 10 + (c - 48)) t

value_from-append :
    (acc : ℕ) (t : Text) (c : ℕ) → value_from acc (t ++ c ∷ []) ≡ value_from acc t * 10 + (c - 48)
unfolding value_from
value_from-append acc [] c = refl
value_from-append acc (d ∷ t) c = value_from-append (acc * 10 + (d - 48)) t c

value_from-decimal_from : (f n : ℕ) → n < f → value_from 0 (decimal_from f n) ≡ n
unfolding decimal_from value_from
value_from-decimal_from zero n h = elim h [ ]
value_from-decimal_from (suc f) n h = ground (
  arith,
  value_from-append 0 (decimal_from f (n / 10)) (b'0' + n % 10),
  value_from-decimal_from f (n / 10),
)

-- Reading the digits back gives the number.
pub value_from-decimal : (n : ℕ) → value_from 0 (decimal n) ≡ n
unfolding decimal
value_from-decimal n = value_from-decimal_from (suc n) n (omega arith)

abbrev pub IsDigits : Text → Type 0
IsDigits = All (λ c. is_digit c ≡ true)

decimal_from-IsDigits : (f n : ℕ) → IsDigits (decimal_from f n)
unfolding decimal_from
decimal_from-IsDigits zero n = tt
decimal_from-IsDigits (suc f) n = elim (Bool-cases (ltb n 10)) [
  | inl small ↦ rw small (ground arith, tt)
  | inr large ↦
      rw large
        (All-concat (λ c. is_digit c ≡ true) _ (decimal_from-IsDigits f (n / 10)) (ground arith))
]

pub decimal-IsDigits : (n : ℕ) → IsDigits (decimal n)
unfolding decimal
decimal-IsDigits n = decimal_from-IsDigits (suc n) n

digit_string : ℕ → String
digit_string d =
    if d == 48
    then "0"
    else if d == 49
    then "1"
    else if d == 50
    then "2"
    else if d == 51
    then "3"
    else if d == 52
    then "4"
    else if d == 53
    then "5"
    else if d == 54
    then "6"
    else if d == 55
    then "7"
    else if d == 56
    then "8"
    else "9"

digits_string : Text → String
unfolding digit_string
digits_string [] = ""
digits_string (d ∷ t) = String.◌++◌ (digit_string d) (digits_string t)

-- `${n}` inside a template.
unfoldable pub show : ℕ → String
unfolding digits_string decimal
show n = digits_string (decimal n)

show_example : show 1207 ≡ "1207"
unfolding show
show_example = refl
