-- ===== src/Tracking/Widget.antt =====
-- `init` and `postEvent` of web/packages/tracking/src/widget.ts. The page and the browser's clock are
-- arguments; what is sent is a value.
pub mod Laws
use indica_ai.Prelude.{
  ℕ, Bool, Option, none, some, List, [], ◌∷◌, ◌++◌, map, Text, codes, if◌then◌else◌,
}
use indica_ai.Js.Strings.{is_empty}
use indica_ai.Tracking.Visitor.{World, get_visitor_id, get_referral_code}

pub record TrackingConfig : Type 0 where
  pub api_url : Text
  pub tenant_id : Text
  pub program_id : Option Text

pub record ClickEvent : Type 0 where
  pub slug : Text
  pub visitor_id : Text
  pub referrer : Option Text
  pub url : Text
  pub timestamp : ℕ

-- A match of `input[name="referral_code"]`: an `HTMLInputElement` with its value, or another node.
pub data Input : Type 0 where
  html : Text → Input
  other : Input

pub record Page : Type 0 where
  pub ref : Option Text
  pub inputs : List Input
  pub referrer : Text
  pub href : Text
  pub now : ℕ
  pub has_beacon : Bool

pub data Field : Type 0 where
  text : Text → Field
  number : ℕ → Field

-- The members of a JSON object, under the keys that are sent.
abbrev pub Body : Type 0
Body = List (Text × Field)

-- A key whose value is `undefined` is left out.
abbrev pub if_defined : Text → Option Text → Body → Body
if_defined key none body = body
if_defined key (some t) body = (key, text t) ∷ body

-- `JSON.stringify(event)`; the source's names of the members are its keys.
unfoldable pub stringify : ClickEvent → Body
stringify e =
    (codes "slug", text e.slug)
    ∷ (codes "visitorId", text e.visitor_id)
    ∷ if_defined (codes "referrer") e.referrer
        ((codes "url", text e.url) ∷ (codes "timestamp", number e.timestamp) ∷ [])

pub data Sent : Type 0 where
  beacon : (url : Text) → Body → Sent
  posted : (url : Text) → Body → Sent

-- `postEvent`: whether `fetch` succeeds changes nothing.
unfoldable pub post_event : TrackingConfig → ClickEvent → Sent
unfolding stringify
post_event config event = posted (config.api_url ++ codes "/events/click") (stringify event)

unfoldable pub fill_input : Text → Input → Input
fill_input code (html v) = html (if is_empty v then code else v)
fill_input code other = other

unfoldable pub fill_inputs : Option Text → List Input → List Input
unfolding fill_input
fill_inputs none inputs = inputs
fill_inputs (some code) inputs = map (fill_input code) inputs

-- `referralCode || "direct"`; a code is never empty.
abbrev pub slug_or_direct : Option Text → Text
slug_or_direct none = codes "direct"
slug_or_direct (some code) = if is_empty code then codes "direct" else code

-- `document.referrer || undefined`.
abbrev pub text_or_undefined : Text → Option Text
text_or_undefined t = if is_empty t then none else some t

send : TrackingConfig → Page → ClickEvent → Sent
unfolding post_event stringify
send config page event =
    if page.has_beacon
    then beacon (config.api_url ++ codes "/events/click") (stringify event)
    else post_event config event

-- The cookies, the inputs and what was sent; none where the cookie cannot be decoded.
pub record Done : Type 0 where
  pub world : World
  pub inputs : List Input
  pub sent : Sent

finish : TrackingConfig → Page → World → Text → Option Text → Done
unfolding send fill_inputs
finish config page w visitor_id code = record {
  world = w;
  inputs = fill_inputs code page.inputs;
  sent = send config page (record {
    slug = slug_or_direct code;
    visitor_id = visitor_id;
    referrer = text_or_undefined page.referrer;
    url = page.href;
    timestamp = page.now;
  });
}

unfoldable pub init : (ℕ → ℕ) → TrackingConfig → Page → World → Option Done
unfolding finish
init random config page w = elim (get_visitor_id random w) [
  | none ↦ none
  | some (visitor_id, w') ↦ elim (get_referral_code page.ref w'.jar) [
    | none ↦ none
    | some code ↦ some (finish config page w' visitor_id code)
  ]
]
