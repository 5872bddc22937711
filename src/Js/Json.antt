-- ===== src/Js/Json.antt =====
-- JSON values as `JSON.parse` gives them; a number is a count of thousandths.
use indica_ai.Prelude.{ℕ, zero, suc, Bool, true, false, not, String, str_eq, codes, length}
use indica_ai.Prelude.Int.{ℤ, pos, negsuc}

mutual
  pub data Json : Type 0 where
    null : Json
    bool : Bool → Json
    number : ℤ → Json
    text : String → Json
    array : Items → Json
    object : Members → Json

  pub data Items : Type 0 where
    nil : Items
    cons : Json → Items → Items

  pub data Members : Type 0 where
    end : Members
    member : String → Json → Members → Members

-- What `if (v)` makes of a value.
abbrev pub is_truthy : Json → Bool
is_truthy null = false
is_truthy (bool b) = b
is_truthy (number (pos zero)) = false
is_truthy (number (pos (suc n))) = true
is_truthy (number (negsuc n)) = true
is_truthy (text s) = not (str_eq s "")
is_truthy (array xs) = true
is_truthy (object ms) = true

abbrev pub length_items : Items → ℕ
length_items nil = 0
length_items (cons x xs) = suc (length_items xs)

abbrev pub length_members : Members → ℕ
length_members end = 0
length_members (member k v ms) = suc (length_members ms)

-- `Object.keys(v).length`; a text has a key for each unit. Of null, at which it throws, it is 0.
abbrev pub length_keys : Json → ℕ
length_keys (text s) = length (codes s)
length_keys (array xs) = length_items xs
length_keys (object ms) = length_members ms
length_keys _ = 0
