-- ===== src/Dashboard/Sidebar/Laws.antt =====
-- The marked entry of web/apps/dashboard/app/components/sidebar.tsx.
use indica_ai.Prelude.{
  ℕ, ◌≤◌, ◌≡◌, refl, ap, ◌∙◌, subst, Bool, true, false, ◌&&◌, ◌||◌, not, Option, none, some, List,
  [], ◌∷◌, ◌++◌, Text, codes, ◌==◌, arith, length, select, All, all, Bool-cases, inl, inr,
}
use mathlib.Core.List.{append_assoc}
use indica_ai.Js.Strings.{split, Free, split-append, split_of_Free, starts_with}
use indica_ai.Js.Strings.Laws.{starts_with_sound}
use indica_ai.Dashboard.Sidebar.{Item, same_text, is_active, is_bottom_active, entries}

same_text_sound : (s t : Text) → same_text s t ≡ true → s ≡ t
unfolding same_text
same_text_sound [] [] h = refl
same_text_sound [] (b ∷ t) h = cc
same_text_sound (a ∷ s) [] h = cc
same_text_sound (a ∷ s) (b ∷ t) h =
    let e : a ≡ b = ground arith in let f = same_text_sound s t (ground arith) in cc

same_text_refl : (s : Text) → same_text s s ≡ true
unfolding same_text
same_text_refl [] = refl
same_text_refl (a ∷ s) = ground (arith, same_text_refl s)

abbrev first : List Text → Option Text
first [] = none
first (x ∷ xs) = some x

-- What a path has behind its first character, up to the next slash.
segment : Text → Option Text
segment [] = none
segment (c ∷ t) = first (split b'/' t)

abbrev name_of : Item → Text
name_of i = elim (codes i.href) [ [] ↦ [] | c ∷ t ↦ t ]

Free-all : (t : Text) → all (λ c. not (c == b'/')) t ≡ true → Free b'/' t
Free-all [] h = tt
Free-all (c ∷ t) h = (ground arith, Free-all t (ground arith))

segment_of_same :
    (path x : Text)
    → all (λ c. not (c == b'/')) x ≡ true
    → same_text path (b'/' ∷ x) ≡ true
    → segment path ≡ some x
unfolding segment
segment_of_same path x f h =
    ap segment (same_text_sound path (b'/' ∷ x) h) ∙ ap first (split_of_Free b'/' x (Free-all x f))

segment_of_prefix :
    (path x : Text)
    → all (λ c. not (c == b'/')) x ≡ true
    → starts_with path (b'/' ∷ x ++ b'/' ∷ []) ≡ true
    → segment path ≡ some x
unfolding segment
segment_of_prefix path x f h =
    let (post, e) = starts_with_sound path (b'/' ∷ x ++ b'/' ∷ []) h in
    let cut = split-append b'/' x post (Free-all x f) in
    ap segment e ∙ (ap (λ t. first (split b'/' t)) (append_assoc x (b'/' ∷ []) post) ∙ ap first cut)

-- An entry is marked only for the path's own segment.
segment_of_either :
    (path x : Text)
    → all (λ c. not (c == b'/')) x ≡ true
    → (same_text path (b'/' ∷ x) || starts_with path (b'/' ∷ x ++ b'/' ∷ [])) ≡ true
    → segment path ≡ some x
segment_of_either path x f h = elim (Bool-cases (same_text path (b'/' ∷ x))) [
  | inl e ↦ segment_of_same path x f e
  | inr e ↦ segment_of_prefix path x f (rw e at h)
]

abbrev Marks : Option Text → List (Item × Bool) → Type 0
Marks k es = All (λ e. e.1 ≡ true → k ≡ some (name_of e.0)) es

abbrev is_fresh : Text → List (Item × Bool) → Bool
is_fresh x es = all (λ e. not (same_text x (name_of e.0))) es

abbrev is_distinct : List (Item × Bool) → Bool
is_distinct [] = true
is_distinct (e ∷ es) = is_fresh (name_of e.0) es && is_distinct es

abbrev pub marked : List (Item × Bool) → ℕ
marked es = length (select (λ e. e.1) es)

no_other :
    (x : Text) (es : List (Item × Bool)) → Marks (some x) es → is_fresh x es ≡ true → marked es ≡ 0
no_other x [] m f = refl
no_other x ((i, false) ∷ es) (n, m) f = no_other x es m (ground arith)
no_other x ((i, true) ∷ es) (n, m) f =
    let e : x ≡ name_of i = let e' = n refl in cc in
    let s = subst (λ y. same_text x y ≡ true) e (same_text_refl x) in let g = rw s at f in cc

marked-le :
    (k : Option Text) (es : List (Item × Bool)) → Marks k es → is_distinct es ≡ true → marked es ≤ 1
marked-le k [] m d = omega arith
marked-le k ((i, false) ∷ es) (n, m) d = marked-le k es m (ground arith)
marked-le k ((i, true) ∷ es) (n, m) d =
    let rest = subst (λ k. Marks k es) (n refl) m in
    let e = no_other (name_of i) es rest (ground arith) in omega (arith, e)

-- Whatever the path, the sidebar marks at most one of its eight entries as that of the current
-- page.
pub marked-entries : (path : Text) → marked (entries path) ≤ 1
unfolding entries is_active is_bottom_active same_text
marked-entries path =
    marked-le (segment path) (entries path)
      (
        segment_of_same path (codes "dashboard") refl,
        (
          segment_of_either path (codes "programas") refl,
          (
            segment_of_either path (codes "parceiros") refl,
            (
              segment_of_either path (codes "indicacoes") refl,
              (
                segment_of_either path (codes "comissoes") refl,
                (
                  segment_of_either path (codes "saques") refl,
                  (
                    segment_of_either path (codes "auditoria") refl,
                    (segment_of_same path (codes "configuracoes") refl, tt),
                  ),
                ),
              ),
            ),
          ),
        ),
      )
      refl
