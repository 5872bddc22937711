-- ===== src/Client.antt =====
-- `createClient` of web/packages/api-client/src/index.ts: the request that it makes, and what becomes of
-- the answer.
pub mod Types
pub mod Endpoints
pub mod Laws
use indica_ai.Prelude.{
  ℕ, Bool, true, false, ◌&&◌, not, Option, none, some, List, [], ◌∷◌, ◌++◌, String, Text, str_eq,
  leb, ◌==◌, if◌then◌else◌,
}
use indica_ai.Http
use indica_ai.Http.{Json, unreadable, parsed}

pub data Method : Type 0 where
  get post put patch delete : Method

-- A map of headers, each key once.
abbrev pub Headers : Type 0
Headers = List (String × String)

pub record ClientOptions : Type 0 where
  pub base_url : Text
  pub credentials : Option String
  pub headers : Option Headers

-- A call of one of the client's five functions, with `init?.headers`; a body that is not given is absent.
pub record Call (B T : Type 0) : Type 0 where
  pub method : Method
  pub path : Text
  pub body : Option B
  pub headers : Headers

module _ {T : Type 0} where
  unfoldable pub client_get : Text → Call (Unit {0}) T
  client_get path = record { method = Method.get; path = path; body = none; headers = [] }

  unfoldable pub client_delete : Text → Call (Unit {0}) T
  client_delete path = record { method = Method.delete; path = path; body = none; headers = [] }

  unfoldable pub client_post : {B : Type 0} → Text → Option B → Call B T
  client_post path body = record { method = Method.post; path = path; body = body; headers = [] }

  unfoldable pub client_put : {B : Type 0} → Text → Option B → Call B T
  client_put path body = record { method = Method.put; path = path; body = body; headers = [] }

  unfoldable pub client_patch : {B : Type 0} → Text → Option B → Call B T
  client_patch path body = record { method = Method.patch; path = path; body = body; headers = [] }

-- `{ ...hs, [k]: v }` and `{ ...hs, ...over }`.
unfoldable pub put_header : String → String → Headers → Headers
put_header k v [] = (k, v) ∷ []
put_header k v ((l, w) ∷ hs) = if str_eq k l then (l, v) ∷ hs else (l, w) ∷ put_header k v hs

unfoldable pub spread : Headers → Headers → Headers
unfolding put_header
spread hs [] = hs
spread hs ((k, v) ∷ over) = spread (put_header k v hs) over

pub record Request (B : Type 0) : Type 0 where
  pub url : Text
  pub method : Method
  pub credentials : String
  pub headers : Headers
  pub body : Option B

abbrev pub or_default : {A : Type 0} → A → Option A → A
or_default d none = d
or_default d (some a) = a

unfoldable pub build_request : {B T : Type 0} → ClientOptions → Call B T → Request B
unfolding spread
build_request options call = record {
  url = options.base_url ++ call.path;
  method = call.method;
  credentials = or_default "include" options.credentials;
  headers =
      spread (spread (("Content-Type", "application/json") ∷ []) (or_default [] options.headers))
        call.headers;
  body = call.body;
}

-- The fields that an error's body may have: those of `ApiError`, and `error` of the back end's.
pub record ErrorBody : Type 0 where
  pub message : Option String
  pub code : Option String
  pub status : Option ℕ
  pub error : Option String

pub record Response (T : Type 0) : Type 0 where
  pub status : ℕ
  pub status_text : String
  pub failure : Json ErrorBody
  pub payload : Json T

pub data Outcome (T : Type 0) : Type 0 where
  unreachable : String → Outcome T
  responded : Response T → Outcome T

-- `IndicaApiError`, with the fields that its body had, or an exception of another class.
pub data Thrown : Type 0 where
  indica_api_error : (message code : Option String) (status : Option ℕ) → Thrown
  other_error : (message : String) → Thrown

pub data Result (T : Type 0) : Type 0 where
  resolved : Option T → Result T
  rejected : Thrown → Result T

module _ {T : Type 0} (null_message : String) where
  error_of : Response T → Json ErrorBody → Thrown
  error_of r (unreadable m) =
      indica_api_error (some r.status_text) (some "UNKNOWN_ERROR") (some r.status)
  error_of r (parsed none) = other_error null_message
  error_of r (parsed (some b)) = indica_api_error b.message b.code b.status

  read_payload : Json T → Result T
  read_payload (unreadable m) = rejected (other_error m)
  read_payload (parsed v) = resolved v

  unfoldable pub settle : Outcome T → Result T
  unfolding error_of read_payload
  settle (unreachable m) = rejected (other_error m)
  settle (responded r) =
      if not (leb 200 r.status && leb r.status 299)
      then rejected (error_of r r.failure)
      else if r.status == 204
      then resolved none
      else read_payload r.payload

unfoldable pub request :
    {B T : Type 0} (null_message : String) (options : ClientOptions)
    → (Request B → Outcome T)
    → Call B T
    → Result T
unfolding settle build_request
request null_message options fetch call = settle null_message (fetch (build_request options call))
