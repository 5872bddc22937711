-- ===== src/Js/Regex/Laws.antt =====
-- Lemmas about the matcher and the texts that an expression describes.
use indica_ai.Prelude.{
  ℕ, ◌≡◌, ◌↔◌, refl, sym, ap, subst, ◌∙◌, ◌++◌, inl, inr, Bool, true, [], ◌∷◌, Text, arith,
  Bool-cases, &&_iff,
}
use indica_ai.Js.Regex.{
  Regex, fail, empty, class, seq, either, star, plus, is_nullable, derive, test, Repeats, done,
  more, Matches,
}

nullable_sound : (r : Regex) → is_nullable r ≡ true → Matches r []
unfolding is_nullable
nullable_sound fail h = ground arith
nullable_sound empty h = refl
nullable_sound (class p) h = ground arith
nullable_sound (seq r s) h =
    let (a, b) = (&&_iff (is_nullable r) (is_nullable s)).0 h in
    ([], [], refl, nullable_sound r a, nullable_sound s b)
nullable_sound (either r s) h = elim (Bool-cases (is_nullable r)) [
  | inl a ↦ inl (nullable_sound r a)
  | inr a ↦ inr (nullable_sound s (ground arith))
]
nullable_sound (star r) h = done

append_empty : (u v : Text) → [] ≡ u ++ v → (u ≡ []) × (v ≡ [])
append_empty [] v e = (refl, sym e)
append_empty (c ∷ u) v e = cc

nullable_complete : (r : Regex) → Matches r [] → is_nullable r ≡ true
unfolding is_nullable
nullable_complete fail h = elim h [ ]
nullable_complete empty h = refl
nullable_complete (class p) (c, e, h) = cc
nullable_complete (seq r s) (u, v, e, a, b) =
    let (eu, ev) = append_empty u v e in
    (&&_iff (is_nullable r) (is_nullable s)).1
      (nullable_complete r (subst (Matches r) eu a), nullable_complete s (subst (Matches s) ev b))
nullable_complete (either r s) (inl a) = rw (nullable_complete r a) refl
nullable_complete (either r s) (inr b) = ground (arith, nullable_complete s b)
nullable_complete (star r) h = refl

seq_sound :
    (c : ℕ) (r s : Regex) (t : Text)
    → ((u : Text) → Matches (derive c r) u → Matches r (c ∷ u))
    → Matches (seq (derive c r) s) t
    → Matches (seq r s) (c ∷ t)
seq_sound c r s t f (u, v, e, a, b) = (c ∷ u, v, ap (λ x. c ∷ x) e, f u a, b)

derive_sound : (c : ℕ) (r : Regex) (t : Text) → Matches (derive c r) t → Matches r (c ∷ t)
unfolding derive
derive_sound c fail t h = h
derive_sound c empty t h = elim h [ ]
derive_sound c (class p) t h = elim (Bool-cases (p c)) [
  | inl e ↦ (c, ap (λ x. c ∷ x) (rw e at h), e)
  | inr e ↦ elim (rw e at h) [ ]
]
derive_sound c (seq r s) t h = elim (Bool-cases (is_nullable r)) [
  | inl n ↦ elim (rw n at h) [
    | inl m ↦ seq_sound c r s t (derive_sound c r) m
    | inr m ↦ ([], c ∷ t, refl, nullable_sound r n, derive_sound c s t m)
  ]
  | inr n ↦ seq_sound c r s t (derive_sound c r) (rw n at h)
]
derive_sound c (either r s) t (inl h) = inl (derive_sound c r t h)
derive_sound c (either r s) t (inr h) = inr (derive_sound c s t h)
derive_sound c (star r) t (u, v, e, a, b) = more (derive_sound c r u a) b (ap (λ x. c ∷ x) e)

star_step :
    (c : ℕ) (r : Regex) (t w : Text)
    → ((u : Text) → Matches r (c ∷ u) → Matches (derive c r) u)
    → Repeats (Matches r) w
    → w ≡ c ∷ t
    → Matches (seq (derive c r) (star r)) t
star_step c r t w f done e = cc
star_step c r t w f (more {u = []} a rest split) e = star_step c r t _ f rest (sym split ∙ e)
star_step c r t w f (more {u = d ∷ u} {v = v} a rest split) e =
    let eq : d ∷ (u ++ v) ≡ c ∷ t = sym split ∙ e in
    let same : d ≡ c = cc in
    let tail : t ≡ u ++ v = cc in (u, v, tail, f u (subst (λ x. Matches r (x ∷ u)) same a), rest)

derive_complete : (c : ℕ) (r : Regex) (t : Text) → Matches r (c ∷ t) → Matches (derive c r) t
unfolding derive
derive_complete c fail t h = h
derive_complete c empty t h = cc
derive_complete c (class p) t (d, e, h) =
    let same : d ≡ c = cc in
    let none_left : t ≡ [] = cc in let kept : p c ≡ true = ap p (sym same) ∙ h in rw kept none_left
derive_complete c (seq r s) t ([], v, e, a, b) =
    let kept = nullable_complete r a in
    rw kept (inr (derive_complete c s t (subst (Matches s) (sym e) b)))
derive_complete c (seq r s) t (d ∷ u, v, e, a, b) =
    let same : d ≡ c = cc in
    let rest : t ≡ u ++ v = cc in
    let first = derive_complete c r u (subst (λ x. Matches r (x ∷ u)) same a) in
    elim (Bool-cases (is_nullable r)) [
      | inl n ↦ rw n (inl (u, v, rest, first, b))
      | inr n ↦ rw n (u, v, rest, first, b)
    ]
derive_complete c (either r s) t (inl h) = inl (derive_complete c r t h)
derive_complete c (either r s) t (inr h) = inr (derive_complete c s t h)
derive_complete c (star r) t h = star_step c r t (c ∷ t) (derive_complete c r) h refl

-- `r.test(t)` holds exactly of the texts that the expression describes.
pub test_iff : (r : Regex) (t : Text) → (test r t ≡ true) ↔ Matches r t
unfolding test
test_iff r [] = (nullable_sound r, nullable_complete r)
test_iff r (c ∷ t) =
    let (there, back) = test_iff (derive c r) t in
    (λ h. derive_sound c r t (there h), λ h. back (derive_complete c r t h))

-- One expression that differs from the other in smaller classes, and in a class once more before its
-- repetition.
pub data IsWithin : Regex → Regex → Type 0 where
  within_empty : IsWithin empty empty
  within_class :
      {p q : ℕ → Bool} → ((c : ℕ) → p c ≡ true → q c ≡ true) → IsWithin (class p) (class q)
  within_seq : {r s r' s' : Regex} → IsWithin r r' → IsWithin s s' → IsWithin (seq r s) (seq r' s')
  within_star : {r r' : Regex} → IsWithin r r' → IsWithin (star r) (star r')
  within_again : {r r' : Regex} → IsWithin r r' → IsWithin (seq r (plus r)) (plus r')

Repeats-within :
    {P Q : Text → Type 0} → ((t : Text) → P t → Q t) → (t : Text) → Repeats P t → Repeats Q t
Repeats-within f t done = done
Repeats-within f t (more a rest e) = more (f _ a) (Repeats-within f _ rest) e

-- The other describes all that the one describes.
pub Matches-within : {r r' : Regex} → IsWithin r r' → (t : Text) → Matches r t → Matches r' t
Matches-within within_empty t h = h
Matches-within (within_class f) t (c, e, h) = (c, e, f c h)
Matches-within (within_seq f g) t (u, v, e, a, b) =
    (u, v, e, Matches-within f u a, Matches-within g v b)
Matches-within (within_star f) t h = Repeats-within (Matches-within f) t h
Matches-within (within_again f) t (u, v, e, a, (u', v', e', b, rest)) = (
  u,
  v,
  e,
  Matches-within f u a,
  more (Matches-within f u' b) (Repeats-within (Matches-within f) v' rest) e',
)
