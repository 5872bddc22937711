-- ===== src/Http/Laws.antt =====
-- Lemmas about `request` of web/apps/dashboard/app/lib/api.ts and about queries.
use indica_ai.Prelude.{
  ℕ, ◌≡◌, ◌≢◌, ◌↔◌, ◌⊎◌, refl, true, false, Option, none, some, List, [], ◌∷◌, ◌++◌, map, String,
  Text, arith, All-append, eq_iff, ◌==◌, if◌then◌else◌,
}
use indica_ai.Js.Strings.{Free}
use indica_ai.Js.Params.{Params, to_string}
use indica_ai.Js.Params.Laws.{
  IsEncodable, bytes, read, read-to_string_cons, to_string-ne-nil, to_string-no_fragment,
}
use indica_ai.Http.{
  Json, unreadable, parsed, Response, Outcome, unreachable, responded, api_error, resolved,
  rejected, is_ok, error_of, settle, with_query,
}

module _ {T : Type 0} (null_message : String) where
  -- A call of the dashboard's client resolves exactly for an answer in 200-299, with nothing for
  -- 204 and otherwise with the body that was parsed.
  pub settle-resolved :
      (o : Outcome T) (v : Option T)
      → (settle null_message o ≡ resolved v) ↔ (
          (r : Response T) × (o ≡ responded r)
          × (is_ok r ≡ true)
          × ((r.status ≡ 204) × (v ≡ none) ⊎ (r.status ≢ 204) × (r.payload ≡ parsed v)))
  unfolding settle
  settle-resolved o v = (to o, from)
    where
      to :
          (o : Outcome T)
          → settle null_message o ≡ resolved v
          → (r : Response T) × (o ≡ responded r)
            × (is_ok r ≡ true)
            × ((r.status ≡ 204) × (v ≡ none) ⊎ (r.status ≢ 204) × (r.payload ≡ parsed v))
      to (unreachable m) h = cc
      to (responded r) h = (r, refl, ground arith, ground arith)

      from :
          ((r : Response T) × (o ≡ responded r)
            × (is_ok r ≡ true)
            × ((r.status ≡ 204) × (v ≡ none) ⊎ (r.status ≢ 204) × (r.payload ≡ parsed v)))
          → settle null_message o ≡ resolved v
      from (r, e, ok, how) = ground arith

  error_of-api_error :
      (r : Response T) (f : Json (Option String)) (m : String) (s : ℕ)
      → error_of null_message r f ≡ api_error m s
      → (s ≡ r.status) × ((m ≡ r.status_text) ⊎ ((m ≢ "") × (f ≡ parsed (some (some m)))))
  unfolding error_of
  error_of-api_error r (unreadable e) m s h = ground (arith, eq_iff r.status_text "")
  error_of-api_error r (parsed none) m s h = cc
  error_of-api_error r (parsed (some none)) m s h = ground arith
  error_of-api_error r (parsed (some (some e))) m s h = ground (arith, eq_iff e "")

  -- An `ApiError` of the dashboard's client is thrown only for an answer outside 200-299; it
  -- carries the answer's status, and its message is the status text or the error of the body, which
  -- then is not empty.
  pub settle-api_error :
      (o : Outcome T) (m : String) (s : ℕ)
      → settle null_message o ≡ rejected (api_error m s)
      → (r : Response T) × (o ≡ responded r)
        × (is_ok r ≡ false)
        × (s ≡ r.status)
        × ((m ≡ r.status_text) ⊎ ((m ≢ "") × (r.failure ≡ parsed (some (some m)))))
  unfolding settle
  settle-api_error (unreachable e) m s h = cc
  settle-api_error (responded r) m s h =
      let facts = error_of-api_error r r.failure m s in
      (r, refl, ground arith, ground (arith, facts), ground (arith, facts))

-- The text behind the first `?`, which a server takes for the query.
unfoldable pub query_of : Text → Option Text
query_of [] = none
query_of (c ∷ t) = if c == b'?' then some t else query_of t

-- A fragment, from the first `#`, is not sent to the server.
before_fragment : Text → Text
before_fragment [] = []
before_fragment (c ∷ t) = if c == b'#' then [] else c ∷ before_fragment t

before_fragment_of_Free : (t : Text) → Free b'#' t → before_fragment t ≡ t
unfolding before_fragment
before_fragment_of_Free [] h = refl
before_fragment_of_Free (c ∷ t) (n, h) = ground (arith, before_fragment_of_Free t h)

-- The filters that a server reads in a URL.
pub filters_of : Text → List (Text × Text)
filters_of url = elim (query_of (before_fragment url)) [ none ↦ [] | some q ↦ read q ]

query_of-Free : (path : Text) → Free b'?' path → query_of path ≡ none
unfolding query_of
query_of-Free [] h = refl
query_of-Free (c ∷ path) (n, h) = ground (arith, query_of-Free path h)

query_of-append : (path q : Text) → Free b'?' path → query_of (path ++ b'?' ∷ q) ≡ some q
unfolding query_of
query_of-append [] q h = refl
query_of-append (c ∷ path) q (n, h) = ground (arith, query_of-append path q h)

append-nonempty :
    (path q : Text)
    → q ≢ []
    → (elim q [ [] ↦ path | c ∷ qs ↦ path ++ b'?' ∷ c ∷ qs ]) ≡ path ++ b'?' ∷ q
append-nonempty path [] h = absurd (h refl)
append-nonempty path (c ∷ q) h = refl

with_query-cons :
    (path : Text) (p : String × Text) (ps : Params)
    → with_query path (p ∷ ps) ≡ path ++ b'?' ∷ to_string (p ∷ ps)
unfolding with_query
with_query-cons path p ps = append-nonempty path (to_string (p ∷ ps)) (to_string-ne-nil p ps)

with_query-nil : (path : Text) → with_query path [] ≡ path
unfolding with_query to_string
with_query-nil path = refl

sent-no_fragment :
    (path : Text) (p : String × Text) (ps : Params)
    → Free b'#' path
    → Free b'#' (path ++ b'?' ∷ to_string (p ∷ ps))
sent-no_fragment path p ps f =
    All-append (λ u. u ≢ b'#') path (b'?' ∷ to_string (p ∷ ps)) f
      (omega arith, to_string-no_fragment (p ∷ ps))

-- A server reads back the parameters that were set, in their order, and none where none was set.
pub filters_of-with_query :
    (path : Text) (ps : Params)
    → Free b'?' path
    → Free b'#' path
    → IsEncodable ps
    → filters_of (with_query path ps) ≡ map bytes ps
unfolding filters_of
filters_of-with_query path [] h f e =
    rw (with_query-nil path)
      (rw (filters_of, before_fragment_of_Free path f) (rw (query_of-Free path h) refl))
filters_of-with_query path (p ∷ ps) h f e = rw (with_query-cons path p ps) (
    rw (filters_of, before_fragment_of_Free _ (sent-no_fragment path p ps f))
      (rw (query_of-append path (to_string (p ∷ ps)) h) (read-to_string_cons p ps e)))
