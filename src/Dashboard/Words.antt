-- ===== src/Dashboard/Words.antt =====
-- What the tables share: the text that a row is searched in, and texts that may be missing or empty.
use indica_ai.Prelude.{
  Bool, true, false, Option, none, some, List, [], ◌∷◌, ◌++◌, Text, String, codes, str_eq,
  if◌then◌else◌,
}

-- `.filter(Boolean)` and `.join(" ")`.
abbrev pub present : Option String → List Text
present none = []
present (some v) = if str_eq v "" then [] else codes v ∷ []

unfoldable pub join_words : List Text → Text
join_words [] = []
join_words (w ∷ []) = w
join_words (w ∷ x ∷ ws) = w ++ b' ' ∷ join_words (x ∷ ws)

abbrev pub dashed : Option String → String
dashed none = "—"
dashed (some v) = if str_eq v "" then "—" else v

-- `a || b`.
abbrev pub or_text : Option String → Option String → Option String
or_text none b = b
or_text (some v) b = if str_eq v "" then b else some v

-- `v && …`.
abbrev pub truthy : Option String → Option String
truthy none = none
truthy (some v) = if str_eq v "" then none else some v

-- `if (error)`.
abbrev pub shows_error : Option String → Bool
shows_error none = false
shows_error (some m) = if str_eq m "" then false else true
