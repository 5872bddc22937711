-- ===== src/Dashboard/Guard/Laws.antt =====
-- Lemmas about web/apps/dashboard/app/components/auth-guard.tsx, on every outcome of `authApi.me()`.
use indica_ai.Prelude.{
  ◌≡◌, ◌≢◌, ◌↔◌, refl, sym, ap, ◌∙◌, Bool, true, false, Option, none, some, String, arith, inl, inr,
  Bool-cases, ◌==◌,
}
use indica_ai.Http.{
  Json, unreadable, parsed, Response, Outcome, unreachable, responded, settle, error_of, is_ok,
  Result, resolved, rejected, get_status,
}
use indica_ai.Dashboard.Guard.{opened, is_unauthorized, answered, shows_children}

-- An error of this status.
unauthorized_iff :
    {T : Type 0} (m : String) (r : Response T) (f : Json (Option String))
    → (is_unauthorized (get_status (error_of m r f)) ≡ true)
      ↔ ((r.status ≡ 401) × (f ≢ parsed none))
unfolding error_of
unauthorized_iff m r (unreadable e) = ground arith
unauthorized_iff m r (parsed none) = ground arith
unauthorized_iff m r (parsed (some none)) = ground arith
unauthorized_iff m r (parsed (some (some e))) = ground arith

-- A settled call that the guard takes for no session.
abbrev is_turned_away : {T : Type 0} → Result T → Bool
is_turned_away (resolved v) = false
is_turned_away (rejected e) = is_unauthorized (get_status e)

answered_iff :
    {T : Type 0} (x : Result T)
    → let s = answered x opened in
      (((shows_children s ≡ false) × (s.replaced ≡ some "/login")) ↔ (is_turned_away x ≡ true))
      × (shows_children s ≡ true → s.replaced ≡ none)
unfolding answered shows_children opened
answered_iff (resolved v) = ground arith
answered_iff (rejected e) = elim (Bool-cases (is_unauthorized (get_status e))) [
  | inl h ↦ rw h (ground arith)
  | inr h ↦ rw h (ground arith)
]

kept :
    {T : Type 0} (m : String) (r : Response T)
    → is_ok r ≡ true
    → is_turned_away (settle m (responded r)) ≡ false
unfolding settle
kept m r h = elim (Bool-cases (r.status == 204)) [
  | inl e ↦ rw (h, e) refl
  | inr e ↦ rw (h, e) (ground arith)
]

refused :
    {T : Type 0} (m : String) (r : Response T)
    → is_ok r ≡ false
    → settle m (responded r) ≡ rejected (error_of m r r.failure)
unfolding settle
refused m r h = rw h refl

settle_iff :
    {T : Type 0} (m : String) (r : Response T)
    → (is_turned_away (settle m (responded r)) ≡ true)
      ↔ ((r.status ≡ 401) × (r.failure ≢ parsed none))
settle_iff m r = elim (Bool-cases (is_ok r)) [
  | inl h ↦ rw (kept m r h) (ground arith)
  | inr h ↦ rw (refused m r h) (unauthorized_iff m r r.failure)
]

reached :
    (T : Type 0) (m e : String)
    → let s = answered (settle {T = T} m (unreachable e)) opened in
      (shows_children s ≡ true) × (s.replaced ≡ none)
unfolding answered shows_children opened settle
reached T m e = (refl, refl)

-- Once `authApi.me()` has settled, the guard hides the page and has sent the router to "/login"
-- exactly for an answer with status 401 whose body is not the JSON `null`; when it shows the page
-- it has sent the router nowhere.
pub shows_children-answered :
    {T : Type 0} (m : String) (o : Outcome T)
    → let s = answered (settle m o) opened in
      (((shows_children s ≡ false) × (s.replaced ≡ some "/login"))
        ↔ ((r : Response T) × (o ≡ responded r) × (r.status ≡ 401) × (r.failure ≢ parsed none)))
      × (shows_children s ≡ true → s.replaced ≡ none)
shows_children-answered m (unreachable e) =
    let (shown, stays) = reached _ m e in ((λ (hidden, sent). cc, λ (r, x, y, z). cc), λ h. stays)
shows_children-answered m (responded r) =
    let ((a, b), c) = answered_iff (settle m (responded r)) in
    let (there, back) = settle_iff m r in
    (
      (
        λ h. let (status, body) = there (a h) in (r, refl, status, body),
        λ (q, e, status, body).
            let same : r ≡ q = cc in
            b (
              back
                (ap (λ x. x.status) same ∙ status, λ f. body (sym (ap (λ x. x.failure) same) ∙ f))),
      ),
      c,
    )
