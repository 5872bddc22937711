-- ===== src/Tests/Requests.antt =====
-- Answers of the back end, the calls of the lists, the guard and a redirect.
use indica_ai.Prelude.{
  ◌≡◌, ◌≢◌, ◌↔◌, refl, true, false, none, some, List, [], ◌∷◌, map, String, codes,
}
use indica_ai.Js.Params.Laws.{bytes}
use indica_ai.Http
use indica_ai.Http.Laws.{filters_of}
use indica_ai.Dashboard.Api.Types.{PayoutStatus}
use indica_ai.Dashboard.Api.Endpoints.{payouts_list}
use indica_ai.Dashboard.Api.Endpoints.Laws.{filters_of-payouts_list, payout_filters}
use indica_ai.Dashboard.Guard.{opened, answered, shows_children}
use indica_ai.Dashboard.Guard.Laws.{shows_children-answered}
use indica_ai.Public.Redirect.{Value, single, several}
use indica_ai.Client
use indica_ai.Client.Laws.{seen, settle_agrees}

abbrev refused : Http.Response String
refused = record {
  status = 409;
  status_text = "Conflict";
  failure = Http.parsed (some (some "payout not pending"));
  payload = Http.parsed none;
}

-- The session has run out.
abbrev expired : Http.Response String
expired = record (refused) { status = 401 }

shows_children-answered_example :
    let s = answered (Http.settle "null" (Http.responded expired)) opened in
    (((shows_children s ≡ false) × (s.replaced ≡ some "/login")) ↔ (
      (r : Http.Response String) × (Http.responded expired ≡ Http.responded r)
      × (r.status ≡ 401)
      × (r.failure ≢ Http.parsed none)))
    × (shows_children s ≡ true → s.replaced ≡ none)
shows_children-answered_example = shows_children-answered "null" (Http.responded expired)

abbrev link : List (String × Value)
link =
    ("utm_source", single (codes "zap")) ∷ ("tag", several []) ∷ ("ref", single (codes "a b")) ∷ []

filters_of-payouts_list_example :
    filters_of (payouts_list (some PayoutStatus.paid) none (some 100)).path
    ≡ map bytes (payout_filters (some PayoutStatus.paid) none (some 100))
filters_of-payouts_list_example = filters_of-payouts_list (some PayoutStatus.paid) none (some 100)

abbrev conflict : Client.Response String
conflict = record {
  status = 409;
  status_text = "Conflict";
  failure = Http.parsed (
      some
        (record { message = none; code = none; status = none; error = some "payout not pending" }));
  payload = Http.parsed none;
}

settle_agrees_example :
    (Client.settle "null" (Client.responded conflict) ≡ Client.resolved none)
    ↔ (Http.settle "null" (seen (Client.responded conflict)) ≡ Http.resolved none)
settle_agrees_example = settle_agrees "null" (Client.responded conflict) none

-- The package's client reads no field that the back end's error has.
nothing_read :
    Client.settle "null" (Client.responded conflict)
    ≡ Client.rejected (Client.indica_api_error none none none)
unfolding Client.settle
nothing_read = refl

abbrev options : Client.ClientOptions
options = record {
  base_url = codes "https://api.indica.ai";
  credentials = none;
  headers = some (("X-Tenant", "t") ∷ []);
}

abbrev ping : Client.Call (Unit {0}) String
ping = Client.client_get (codes "/ping")
