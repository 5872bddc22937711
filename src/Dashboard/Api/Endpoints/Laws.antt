-- ===== src/Dashboard/Api/Endpoints/Laws.antt =====
-- Lemmas about the queries of the lists of web/apps/dashboard/app/lib/api.ts.
use indica_ai.Prelude.{
  ℕ, zero, suc, ◌≡◌, Option, none, some, [], ◌∷◌, ◌++◌, map, Text, String, codes, arith, All-append,
}
use indica_ai.Js.Decimal.{decimal, IsDigits, decimal-IsDigits}
use indica_ai.Js.Params.{Params, set}
use indica_ai.Js.Params.Laws.{IsBmp, IsEncodable, bytes}
use indica_ai.Http.{api_get}
use indica_ai.Http.Laws.{filters_of, filters_of-with_query}
use indica_ai.Dashboard.Api.Types.{PayoutStatus}
use indica_ai.Dashboard.Api.Endpoints.{payout_status, payouts_params, payouts_list}

IsDigits→IsBmp : (t : Text) → IsDigits t → IsBmp t
IsDigits→IsBmp [] h = tt
IsDigits→IsBmp (c ∷ t) (d, h) = (ground arith, IsDigits→IsBmp t h)

decimal-IsBmp : (n : ℕ) → IsBmp (decimal n)
decimal-IsBmp n = IsDigits→IsBmp (decimal n) (decimal-IsDigits n)

-- What a filter says to the server: nothing where it is missing or zero.
abbrev pub number_filter : String → Option ℕ → Params
number_filter k none = []
number_filter k (some zero) = []
number_filter k (some (suc n)) = (k, decimal (suc n)) ∷ []

abbrev pub status_filter : Option PayoutStatus → Params
status_filter none = []
status_filter (some s) = ("status", codes (payout_status s)) ∷ []

abbrev pub payout_filters : Option PayoutStatus → Option ℕ → Option ℕ → Params
payout_filters status page limit =
    status_filter status ++ (number_filter "page" page ++ number_filter "limit" limit)

payouts_params_lem :
    (status : Option PayoutStatus) (page limit : Option ℕ)
    → payouts_params status page limit ≡ payout_filters status page limit
unfolding payouts_params set
payouts_params_lem none none none = ground arith
payouts_params_lem none none (some zero) = ground arith
payouts_params_lem none (some zero) _ = ground arith
payouts_params_lem (some s) (some zero) _ = ground arith
payouts_params_lem _ _ _ = ground arith

status_filter-IsEncodable : (status : Option PayoutStatus) → IsEncodable (status_filter status)
status_filter-IsEncodable none = tt
status_filter-IsEncodable (some PayoutStatus.pending) = omega arith
status_filter-IsEncodable (some _) = omega arith

number_filter-IsEncodable :
    (k : String) (o : Option ℕ) → IsBmp (codes k) → IsEncodable (number_filter k o)
number_filter-IsEncodable k none h = tt
number_filter-IsEncodable k (some zero) h = tt
number_filter-IsEncodable k (some (suc n)) h = ((h, decimal-IsBmp (suc n)), tt)

payout_filters-IsEncodable :
    (status : Option PayoutStatus) (page limit : Option ℕ)
    → IsEncodable (payout_filters status page limit)
payout_filters-IsEncodable status page limit =
    All-append (λ p. IsBmp (codes p.0) × IsBmp p.1) (status_filter status)
      (number_filter "page" page ++ number_filter "limit" limit) (status_filter-IsEncodable status)
      (All-append (λ p. IsBmp (codes p.0) × IsBmp p.1) (number_filter "page" page)
        (number_filter "limit" limit) (number_filter-IsEncodable "page" page (omega arith))
        (number_filter-IsEncodable "limit" limit (omega arith)))

-- In the URL of the list of payouts a server reads the filters that were given, each once and in
-- the order status, page, limit, and no page or limit that is 0.
pub filters_of-payouts_list :
    (status : Option PayoutStatus) (page limit : Option ℕ)
    → filters_of (payouts_list status page limit).path
      ≡ map bytes (payout_filters status page limit)
unfolding payouts_list api_get
filters_of-payouts_list status page limit = rw (payouts_params_lem status page limit) (
    filters_of-with_query (codes "/api/tenants/me/payouts") (payout_filters status page limit)
      (omega arith) (omega arith) (payout_filters-IsEncodable status page limit))
