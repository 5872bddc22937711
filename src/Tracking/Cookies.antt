-- ===== src/Tracking/Cookies.antt =====
-- `getCookie` and `setCookie` of web/packages/tracking/src/widget.ts, over the cookies that the
-- browser holds for the page, in the order of `document.cookie`.
pub mod Laws
use indica_ai.Prelude.{
  ℕ, ◌*◌, Bool, true, false, ◌&&◌, ◌||◌, ◌≡◌, ◌≢◌, refl, leb, all, Option, none, some, List, [],
  ◌∷◌, ◌++◌, Text, codes, ◌==◌, if◌then◌else◌,
}
use indica_ai.Js.Uri.{encode_uri, decode_uri}

-- A unit that stands for itself in a regular expression and in a cookie's name.
abbrev pub is_word : ℕ → Bool
is_word c = leb 48 c && leb c 57 || leb 65 c && leb c 90 || leb 97 c && leb c 122 || c == b'_'

-- The names that the functions are given: plain, and not empty. What `new RegExp` makes of any other
-- name is left out.
pub record Name : Type 0 where
  pub text : Text
  pub is_plain : all is_word text ≡ true
  pub is_given : text ≢ []

abbrev pub cookie_text : Text
cookie_text = codes "_iaref"

pub cookie_text_not_empty : cookie_text ≢ []
cookie_text_not_empty e = cc

abbrev pub cookie_name : Name
cookie_name = record { text = cookie_text; is_plain = refl; is_given = cookie_text_not_empty }

abbrev pub cookie_max_age : ℕ
cookie_max_age = 365 * 24 * 60 * 60

-- Name and value of each cookie.
abbrev pub Jar : Type 0
Jar = List (Text × Text)

abbrev pub entry : Text × Text → Text
entry (n, v) = n ++ b'=' ∷ v

-- `document.cookie`.
unfoldable pub cookie_string : Jar → Text
cookie_string [] = []
cookie_string (c ∷ []) = entry c
cookie_string (c ∷ d ∷ jar) = entry c ++ b';' ∷ b' ' ∷ cookie_string (d ∷ jar)

unfoldable pub text_eq : Text → Text → Bool
text_eq [] [] = true
text_eq (c ∷ s) (d ∷ t) = c == d && text_eq s t
text_eq _ _ = false

-- Assigning to `document.cookie`: the browser replaces the cookie of that name, or adds one. The
-- lifetime and the flags do not show in `document.cookie`; it is on `set_cookie` when this happens.
unfoldable pub store : Text → Text → Jar → Jar
unfolding text_eq
store name value [] = (name, value) ∷ []
store name value ((n, v) ∷ jar) =
    if text_eq n name then (name, value) ∷ jar else (n, v) ∷ store name value jar

-- With the flag `Secure` the browser takes the cookie on a secure page only.
unfoldable pub set_cookie : (secure : Bool) → Name → Text → Jar → Jar
set_cookie secure name value jar = if secure then store name.text (encode_uri value) jar else jar

-- The text behind a prefix.
unfoldable pub strip_prefix : Text → Text → Option Text
strip_prefix [] t = some t
strip_prefix (d ∷ p) [] = none
strip_prefix (d ∷ p) (c ∷ t) = if c == d then strip_prefix p t else none

-- `[^;]+` at the head of a text: the longest run, if it is not empty.
unfoldable pub run : Text → Text
run [] = []
run (c ∷ t) = if c == b';' then [] else c ∷ run t

unfoldable pub value_at : Text → Text → Option Text
unfolding strip_prefix run
value_at key t = elim (strip_prefix key t) [
  | none ↦ none
  | some rest ↦ elim (run rest) [ [] ↦ none | c ∷ v ↦ some (c ∷ v) ]
]

-- `match` with `(^| )${name}=([^;]+)`: the first place, at the start or behind a space, where the
-- key and a value stand; `free` says whether the place is one.
unfoldable pub scan : Text → Bool → Text → Option Text
scan key free [] = none
scan key free (c ∷ t) =
    let rest = scan key (c == b' ') t in
    if free then elim (value_at key (c ∷ t)) [ none ↦ rest | some v ↦ some v ] else rest

-- What `getCookie` gives: null, a value, or the exception of `decodeURIComponent`.
pub data Cookie : Type 0 where
  absent malformed : Cookie
  found : Text → Cookie

decoded : Option Text → Cookie
decoded none = malformed
decoded (some v) = found v

unfoldable pub match_cookie : Name → Text → Option Text
match_cookie name s = scan (name.text ++ b'=' ∷ []) true s

unfoldable pub get_cookie : Name → Jar → Cookie
unfolding decoded
get_cookie name jar = elim (match_cookie name (cookie_string jar)) [
  | none ↦ absent
  | some v ↦ decoded (decode_uri v)
]
