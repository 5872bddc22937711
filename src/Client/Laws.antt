-- ===== src/Client/Laws.antt =====
-- Lemmas about the client of web/packages/api-client/src/index.ts, beside the one of the dashboard.
use indica_ai.Prelude.{◌≡◌, ◌↔◌, Option, none, some, [], ◌∷◌, String, arith, str_eq, if◌then◌else◌}
use indica_ai.Http
use indica_ai.Http.{Json, unreadable, parsed}
use indica_ai.Client.{Headers, ErrorBody, Outcome, unreachable, responded, resolved, settle}

-- What the dashboard's client sees of an answer: of an error's body the field `error`.
abbrev seen_failure : Json ErrorBody → Json (Option String)
seen_failure (unreadable m) = unreadable m
seen_failure (parsed none) = parsed none
seen_failure (parsed (some b)) = parsed (some b.error)

abbrev pub seen : {T : Type 0} → Outcome T → Http.Outcome T
seen (unreachable m) = Http.unreachable m
seen (responded r) = Http.responded (record {
  status = r.status;
  status_text = r.status_text;
  failure = seen_failure r.failure;
  payload = r.payload;
})

-- The client of the package and that of the dashboard resolve the same answers, with the same
-- value.
pub settle_agrees :
    {T : Type 0} (m : String) (o : Outcome T) (v : Option T)
    → (settle m o ≡ resolved v) ↔ (Http.settle m (seen o) ≡ Http.resolved v)
unfolding settle Http.settle
settle_agrees m (unreachable e) v = ground arith
settle_agrees m (responded r) v = ground arith

-- The value of a key in a map of headers.
unfoldable pub value_of : String → Headers → Option String
value_of k [] = none
value_of k ((l, v) ∷ hs) = if str_eq k l then some v else value_of k hs

abbrev pub or_value : Option String → Option String → Option String
or_value none d = d
or_value (some v) d = some v

-- The last value that a list of headers gives a key.
unfoldable pub last_value_of : String → Headers → Option String
last_value_of k [] = none
last_value_of k ((l, v) ∷ hs) = or_value (last_value_of k hs) (if str_eq k l then some v else none)
