-- ===== src/Tracking/Cookies/Laws.antt =====
-- Lemmas about `getCookie` and `setCookie` of web/packages/tracking/src/widget.ts.
use indica_ai.Prelude.{
  ℕ, ◌≡◌, ◌≢◌, refl, sym, ap, ◌∙◌, Bool, true, false, none, some, [], ◌∷◌, ◌++◌, Text, ◌==◌, All,
  all, arith,
}
use mathlib.Core.List.{append_assoc}
use indica_ai.Js.Strings.{Free}
use indica_ai.Js.Uri.{is_unreserved, decode_uri_of_Free, encode_uri_of_unreserved}
use indica_ai.Tracking.Cookies.{
  Name, is_word, Jar, cookie_string, entry, text_eq, store, set_cookie, strip_prefix, run, value_at,
  scan, found, decoded, match_cookie, get_cookie,
}

strip_prefix-append : (p t : Text) → strip_prefix p (p ++ t) ≡ some t
unfolding strip_prefix
strip_prefix-append [] t = refl
strip_prefix-append (c ∷ p) t = ground (arith, strip_prefix-append p t)

run_of_Free : (v : Text) → Free b';' v → run v ≡ v
unfolding run
run_of_Free [] h = refl
run_of_Free (c ∷ v) (n, h) = ground (arith, run_of_Free v h)

value_at-append :
    (key : Text) (c : ℕ) (v : Text) → Free b';' (c ∷ v) → value_at key (key ++ c ∷ v) ≡ some (c ∷ v)
unfolding value_at
value_at-append key c v h =
    rw (strip_prefix-append key (c ∷ v), value_at) (rw (run_of_Free (c ∷ v) h))

-- A key that holds no `;` and has no value in `t` has none in `t` with more behind a `;`.
value_at-none :
    (key t r : Text) → Free b';' key → value_at key t ≡ none → value_at key (t ++ b';' ∷ r) ≡ none
unfolding value_at
value_at-none [] [] r f h = refl
value_at-none [] (c ∷ t) r f h = ground arith
value_at-none (d ∷ key) [] r (n, f) h = ground arith
value_at-none (d ∷ key) (c ∷ t) r (n, f) h = ground (arith, value_at-none key t r f)

value_at-other : (d c : ℕ) (key t : Text) → c ≢ d → value_at (d ∷ key) (c ∷ t) ≡ none
unfolding value_at
value_at-other d c key t n = ground arith

value_at-nil : (d : ℕ) (key : Text) → value_at (d ∷ key) [] ≡ none
unfolding value_at
value_at-nil d key = refl

-- The key stands behind the separator of `document.cookie`.
scan-separator :
    (d : ℕ) (key u w : Text) (free : Bool)
    → d ≢ b';'
    → value_at (d ∷ key) u ≡ some w
    → scan (d ∷ key) free (b';' ∷ b' ' ∷ u) ≡ some w
unfolding scan
scan-separator d key [] w free n h = ground (arith, value_at-nil d key)
scan-separator d key (c ∷ u) w free n h = ground (arith, value_at-other d b';' key (b' ' ∷ c ∷ u))

scan-append :
    (d : ℕ) (key t u w : Text) (free : Bool)
    → Free b';' (d ∷ key)
    → scan (d ∷ key) free t ≡ none
    → value_at (d ∷ key) u ≡ some w
    → scan (d ∷ key) free (t ++ b';' ∷ b' ' ∷ u) ≡ some w
unfolding scan
scan-append d key [] u w free f h v = scan-separator d key u w free f.0 v
scan-append d key (c ∷ t) u w free f h v =
    ground
      (arith, value_at-none (d ∷ key) (c ∷ t) (b' ' ∷ u) f, scan-append d key t u w (c == b' ') f)

cookie_string-concat :
    (c : Text × Text) (jar : Jar) (e : Text × Text)
    → cookie_string ((c ∷ jar) ++ e ∷ []) ≡ cookie_string (c ∷ jar) ++ b';' ∷ b' ' ∷ entry e
unfolding cookie_string
cookie_string-concat c [] e = refl
cookie_string-concat c (d ∷ jar) e =
    ap (λ s. entry c ++ b';' ∷ b' ' ∷ s) (cookie_string-concat d jar e)
    ∙ sym (append_assoc (entry c) (b';' ∷ b' ' ∷ cookie_string (d ∷ jar)) (b';' ∷ b' ' ∷ entry e))

-- No cookie of the jar has the name.
abbrev pub Lacks : Text → Jar → Type 0
Lacks name = All (λ c. text_eq c.0 name ≡ false)

store_of_Lacks :
    (name v : Text) (jar : Jar) → Lacks name jar → store name v jar ≡ jar ++ (name, v) ∷ []
unfolding store
store_of_Lacks name v [] h = refl
store_of_Lacks name v ((n, w) ∷ jar) (e, h) = rw (e, store_of_Lacks name v jar h)

-- A value that is written as it stands.
abbrev pub IsPlainValue : Text → Type 0
IsPlainValue = All (λ c. is_unreserved c ≡ true)

pub plain-Free : (sep : ℕ) (t : Text) → is_unreserved sep ≡ false → IsPlainValue t → Free sep t
plain-Free sep [] s h = tt
plain-Free sep (c ∷ t) s (p, h) = (λ e. cc, plain-Free sep t s h)

abbrev pub key_of : Text → Text
key_of name = name ++ b'=' ∷ []

scan-entry :
    (d : ℕ) (name : Text) (c : ℕ) (v : Text)
    → Free b';' (c ∷ v)
    → value_at (key_of (d ∷ name)) (entry (d ∷ name, c ∷ v)) ≡ some (c ∷ v)
scan-entry d name c v f =
    rw (← append_assoc name (b'=' ∷ []) (c ∷ v)) (value_at-append (key_of (d ∷ name)) c v f)

scan-head :
    (d : ℕ) (name : Text) (c : ℕ) (v : Text)
    → Free b';' (c ∷ v)
    → scan (key_of (d ∷ name)) true (entry (d ∷ name, c ∷ v)) ≡ some (c ∷ v)
unfolding scan
scan-head d name c v f = ground (arith, scan-entry d name c v f)

scan-concat :
    (d : ℕ) (name : Text) (jar : Jar) (c : ℕ) (v : Text)
    → Free b';' (key_of (d ∷ name))
    → Free b';' (c ∷ v)
    → scan (key_of (d ∷ name)) true (cookie_string jar) ≡ none
    → scan (key_of (d ∷ name)) true (cookie_string (jar ++ (d ∷ name, c ∷ v) ∷ [])) ≡ some (c ∷ v)
unfolding cookie_string
scan-concat d name [] c v k f h = scan-head d name c v f
scan-concat d name (e ∷ jar) c v k f h = rw (cookie_string-concat e jar (d ∷ name, c ∷ v)) (
    scan-append d (key_of name) (cookie_string (e ∷ jar)) (entry (d ∷ name, c ∷ v)) (c ∷ v) true k h
      (scan-entry d name c v f))

-- A name holds no semicolon.
key-Free : (name : Text) → all is_word name ≡ true → Free b';' (key_of name)
key-Free [] h = omega arith
key-Free (c ∷ name) h = (ground arith, key-Free name (ground arith))

read_back :
    (name : Text) (jar : Jar) (c : ℕ) (v : Text)
    → all is_word name ≡ true
    → name ≢ []
    → Free b';' (c ∷ v)
    → scan (key_of name) true (cookie_string jar) ≡ none
    → scan (key_of name) true (cookie_string (jar ++ (name, c ∷ v) ∷ [])) ≡ some (c ∷ v)
read_back [] jar c v p n f h = absurd (n refl)
read_back (d ∷ name) jar c v p n f h = scan-concat d name jar c v (key-Free (d ∷ name) p) f h

match_cookie-concat :
    (name : Name) (jar : Jar) (c : ℕ) (v : Text)
    → Free b';' (c ∷ v)
    → match_cookie name (cookie_string jar) ≡ none
    → match_cookie name (cookie_string (jar ++ (name.text, c ∷ v) ∷ [])) ≡ some (c ∷ v)
unfolding match_cookie
match_cookie-concat name jar c v f h = read_back name.text jar c v name.is_plain name.is_given f h

-- On a page where the browser takes a `Secure` cookie, a value of unreserved characters, not empty,
-- is read back as it was set, under a name of letters, digits and underscores that is not empty,
-- where the jar has no such cookie and nothing in `document.cookie` matches its name.
pub get_cookie-set_cookie :
    (name : Name) (jar : Jar) (c : ℕ) (v : Text)
    → IsPlainValue (c ∷ v)
    → Lacks name.text jar
    → match_cookie name (cookie_string jar) ≡ none
    → get_cookie name (set_cookie true name (c ∷ v) jar) ≡ found (c ∷ v)
unfolding get_cookie set_cookie
get_cookie-set_cookie name jar c v p lacks h =
    rw (encode_uri_of_unreserved (c ∷ v) p, store_of_Lacks name.text (c ∷ v) jar lacks)
      (rw (match_cookie-concat name jar c v (plain-Free b';' (c ∷ v) refl p) h, get_cookie)
        (rw (decode_uri_of_Free (c ∷ v) (plain-Free b'%' (c ∷ v) refl p), decoded)))
