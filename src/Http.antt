-- ===== src/Http.antt =====
-- `request` and `api` of web/apps/dashboard/app/lib/api.ts; web/apps/partner/app/lib/api.ts has
-- the same text. `fetch` is the browser's: its outcome is an argument. A body is an object at every
-- call, so `body ? … : undefined` sends it exactly when it is given; JSON stays unserialised.
pub mod Laws
use indica_ai.Prelude.{
  ℕ, Bool, not, ◌&&◌, Option, none, some, List, [], ◌∷◌, ◌++◌, Text, String, codes, str_eq, leb,
  ◌==◌, if◌then◌else◌,
}
use indica_ai.Js.Params.{Params, to_string}

pub data Method : Type 0 where
  get post put patch delete : Method

-- A call of the API: the body that it sends, and the type of the answer.
pub record Call (B T : Type 0) : Type 0 where
  pub path : Text
  pub method : Method
  pub body : Option B

module _ {T : Type 0} where
  unfoldable pub api_get : Text → Call (Unit {0}) T
  api_get path = record { path = path; method = Method.get; body = none }

  unfoldable pub api_post : {B : Type 0} → Text → Option B → Call B T
  api_post path body = record { path = path; method = Method.post; body = body }

  unfoldable pub api_patch : {B : Type 0} → Text → Option B → Call B T
  api_patch path body = record { path = path; method = Method.patch; body = body }

  unfoldable pub api_del : Text → Call (Unit {0}) T
  api_del path = record { path = path; method = Method.delete; body = none }

-- `${path}${qs ? `?${qs}` : ""}`.
unfoldable pub with_query : Text → Params → Text
with_query path params = elim (to_string params) [ [] ↦ path | c ∷ qs ↦ path ++ b'?' ∷ c ∷ qs ]

-- What `fetch` is given.
pub record Request (B : Type 0) : Type 0 where
  pub url : Text
  pub method : Method
  pub credentials : String
  pub headers : List (String × String)
  pub body : Option B

-- What `res.json()` gives; `none` is `null`.
pub data Json (T : Type 0) : Type 0 where
  unreadable : String → Json T
  parsed : Option T → Json T

-- `failure` is the body of an error: its `error` field, if it has one.
pub record Response (T : Type 0) : Type 0 where
  pub status : ℕ
  pub status_text : String
  pub failure : Json (Option String)
  pub payload : Json T

-- A rejected `fetch` carries the browser's message.
pub data Outcome (T : Type 0) : Type 0 where
  unreachable : String → Outcome T
  responded : Response T → Outcome T

-- `ApiError`, or an exception of another class with its message.
pub data Thrown : Type 0 where
  api_error : (message : String) (status : ℕ) → Thrown
  other_error : (message : String) → Thrown

-- A settled promise; `none` is `undefined` or `null`.
pub data Result (T : Type 0) : Type 0 where
  resolved : Option T → Result T
  rejected : Thrown → Result T

-- `s || d` on strings.
abbrev pub or_else : String → String → String
or_else s d = if str_eq s "" then d else s

-- `res.ok`.
abbrev pub is_ok : {T : Type 0} → Response T → Bool
is_ok r = leb 200 r.status && leb r.status 299

abbrev pub get_message : Thrown → String
get_message (api_error m s) = m
get_message (other_error m) = m

-- `e.status`, which only an `ApiError` has.
abbrev pub get_status : Thrown → Option ℕ
get_status (api_error m s) = some s
get_status (other_error m) = none

-- `e instanceof ApiError ? e.message : fallback`.
abbrev pub message_or : String → Thrown → String
message_or fallback (api_error m s) = m
message_or fallback (other_error m) = fallback

unfoldable pub build_request : {B T : Type 0} → Text → Call B T → Request B
build_request api_url call = record {
  url = api_url ++ call.path;
  method = call.method;
  credentials = "include";
  headers = ("Content-Type", "application/json") ∷ [];
  body = call.body;
}

-- `null_message` is what the engine says about a property of `null`.
module _ {T : Type 0} (null_message : String) where
  -- `throw new ApiError(body.error || res.statusText, res.status)`.
  unfoldable pub error_of : Response T → Json (Option String) → Thrown
  error_of r (unreadable m) = api_error (or_else r.status_text r.status_text) r.status
  error_of r (parsed none) = other_error null_message
  error_of r (parsed (some none)) = api_error r.status_text r.status
  error_of r (parsed (some (some e))) = api_error (or_else e r.status_text) r.status

  read_payload : Json T → Result T
  read_payload (unreadable m) = rejected (other_error m)
  read_payload (parsed v) = resolved v

  unfoldable pub settle : Outcome T → Result T
  unfolding error_of read_payload
  settle (unreachable m) = rejected (other_error m)
  settle (responded r) =
      if not (is_ok r)
      then rejected (error_of r r.failure)
      else if r.status == 204
      then resolved none
      else read_payload r.payload

unfoldable pub request :
    {B T : Type 0} (null_message : String) (api_url : Text)
    → (Request B → Outcome T)
    → Call B T
    → Result T
unfolding settle build_request
request null_message api_url fetch call = settle null_message (fetch (build_request api_url call))
