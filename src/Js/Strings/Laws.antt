-- ===== src/Js/Strings/Laws.antt =====
-- Lemmas about `includes` and `trim`.
use indica_ai.Prelude.{
  ◌≡◌, ◌↔◌, refl, ap, inl, inr, true, [], ◌∷◌, ◌++◌, Text, all, ◌∙◌, arith, Bool-cases,
}
use indica_ai.Js.Strings.{starts_with, includes, is_space, is_empty, trim_start, trim_end, trim}

pub starts_with_sound : (t p : Text) → starts_with t p ≡ true → (post : Text) × (t ≡ p ++ post)
unfolding starts_with
starts_with_sound t [] h = (t, refl)
starts_with_sound [] (d ∷ p) h = cc
starts_with_sound (c ∷ t) (d ∷ p) h =
    let (post, e) = starts_with_sound t p (ground arith) in
    let same : c ≡ d = ground arith in (post, cc)

starts_with-append : (p post : Text) → starts_with (p ++ post) p ≡ true
unfolding starts_with
starts_with-append [] post = refl
starts_with-append (d ∷ p) post = ground (arith, starts_with-append p post)

includes_of_starts_with : (t p : Text) → starts_with t p ≡ true → includes t p ≡ true
unfolding includes
includes_of_starts_with [] [] h = refl
includes_of_starts_with [] (d ∷ p) h = cc
includes_of_starts_with (c ∷ t) p h = rw h

includes_sound :
    (t p : Text) → includes t p ≡ true → (pre : Text) × (post : Text) × (t ≡ pre ++ (p ++ post))
unfolding includes
includes_sound [] [] h = ([], [], refl)
includes_sound [] (d ∷ p) h = cc
includes_sound (c ∷ t) p h = elim (Bool-cases (starts_with (c ∷ t) p)) [
  | inl here ↦ let (post, e) = starts_with_sound (c ∷ t) p here in ([], post, e)
  | inr later ↦
      let (pre, post, e) = includes_sound t p (rw (later, includes) at h) in
      (c ∷ pre, post, ap (λ r. c ∷ r) e)
]

includes-append : (pre p post : Text) → includes (pre ++ (p ++ post)) p ≡ true
unfolding includes
includes-append [] p post = includes_of_starts_with (p ++ post) p (starts_with-append p post)
includes-append (c ∷ pre) p post = ground (arith, includes-append pre p post)

-- `t.includes(p)` exactly when `t` is some text, then `p`, then some text.
pub includes_iff :
    (t p : Text) → (includes t p ≡ true) ↔ ((pre : Text) × (post : Text) × (t ≡ pre ++ (p ++ post)))
includes_iff t p = (includes_sound t p, λ s. rw (s.2) (includes-append s.0 p s.1))

trim_end-blank : (t : Text) → is_empty (trim_end t) ≡ all is_space t
unfolding trim_end
trim_end-blank [] = refl
trim_end-blank (c ∷ t) = ground (arith, trim_end-blank t)

all-trim_start : (t : Text) → all is_space (trim_start t) ≡ all is_space t
unfolding trim_start
all-trim_start [] = refl
all-trim_start (c ∷ t) = ground (arith, all-trim_start t)

-- `!t.trim()` holds exactly of a text of white space only.
pub trim-blank : (t : Text) → is_empty (trim t) ≡ all is_space t
unfolding trim
trim-blank t = trim_end-blank (trim_start t) ∙ all-trim_start t
