-- ===== src/Tracking/Widget/Laws.antt =====
-- Lemmas about `init` of web/packages/tracking/src/widget.ts.
use indica_ai.Prelude.{
  ℕ, ◌≡◌, ◌≢◌, refl, Option, none, some, List, [], ◌∷◌, ◌++◌, Text, codes, All, arith,
  if◌then◌else◌,
}
use indica_ai.Js.Strings.{Free}
use indica_ai.Tracking.Cookies.{text_eq, cookie_name, found, get_cookie}
use indica_ai.Tracking.Visitor.{World}
use indica_ai.Tracking.Visitor.Laws.{server_cookie_parts}
use indica_ai.Tracking.Widget.{
  TrackingConfig, ClickEvent, Field, text, Body, stringify, Input, html, other, Page, Sent, beacon,
  posted, fill_inputs, send, Done, finish, init,
}

-- A node is no input, or has a value.
abbrev pub IsFilled : Input → Type 0
IsFilled (html v) = v ≢ []
IsFilled other = Unit

-- What a page typed before is kept.
abbrev pub Keeps : List Input → List Input → Type 0
Keeps [] [] = Unit
Keeps (html (c ∷ v) ∷ xs) (y ∷ ys) = (y ≡ html (c ∷ v)) × Keeps xs ys
Keeps (html [] ∷ xs) (y ∷ ys) = Keeps xs ys
Keeps (other ∷ xs) (y ∷ ys) = (y ≡ other) × Keeps xs ys
Keeps _ _ = ⊥

fill_inputs-IsFilled :
    (c : ℕ) (code : Text) (inputs : List Input)
    → All IsFilled (fill_inputs (some (c ∷ code)) inputs)
unfolding fill_inputs
fill_inputs-IsFilled c code [] = tt
fill_inputs-IsFilled c code (html [] ∷ xs) = (λ e. cc, fill_inputs-IsFilled c code xs)
fill_inputs-IsFilled c code (html (d ∷ v) ∷ xs) = (λ e. cc, fill_inputs-IsFilled c code xs)
fill_inputs-IsFilled c code (other ∷ xs) = (tt, fill_inputs-IsFilled c code xs)

fill_inputs-Keeps :
    (code : Text) (inputs : List Input) → Keeps inputs (fill_inputs (some code) inputs)
unfolding fill_inputs
fill_inputs-Keeps code [] = tt
fill_inputs-Keeps code (html [] ∷ xs) = fill_inputs-Keeps code xs
fill_inputs-Keeps code (html (d ∷ v) ∷ xs) = (refl, fill_inputs-Keeps code xs)
fill_inputs-Keeps code (other ∷ xs) = (refl, fill_inputs-Keeps code xs)

abbrev pub body_of : Sent → Body
body_of (beacon url body) = body
body_of (posted url body) = body

-- What a reader of the body finds under a key.
unfoldable pub read : Text → Body → Option Field
unfolding text_eq
read key [] = none
read key ((k, v) ∷ body) = if text_eq k key then some v else read key body

abbrev pub url_of : Sent → Text
url_of (beacon url e) = url
url_of (posted url e) = url

body_of-send :
    (config : TrackingConfig) (page : Page) (e : ClickEvent)
    → body_of (send config page e) ≡ stringify e
unfolding send
body_of-send config page e = ground arith

-- The keys of an event, and one that the back end's decoder looks for.
read-stringify :
    (slug visitor_id url : Text) (referrer : Option Text) (timestamp : ℕ)
    → let body : Body = stringify (record {
      slug = slug;
      visitor_id = visitor_id;
      referrer = referrer;
      url = url;
      timestamp = timestamp;
    }) in
      (read (codes "visitorId") body ≡ some (text visitor_id))
      × (read (codes "slug") body ≡ some (text slug))
      × (read (codes "visitor_id") body ≡ none)
unfolding read stringify text_eq
read-stringify slug visitor_id url none timestamp = (refl, refl, refl)
read-stringify slug visitor_id url (some r) timestamp = (refl, refl, refl)

read-send :
    (config : TrackingConfig) (page : Page) (e : ClickEvent)
    → let body : Body = body_of (send config page e) in
      (read (codes "visitorId") body ≡ some (text e.visitor_id))
      × (read (codes "slug") body ≡ some (text e.slug))
      × (read (codes "visitor_id") body ≡ none)
read-send config page e =
    rw (body_of-send config page e)
      (read-stringify e.slug e.visitor_id e.url e.referrer e.timestamp)

url_of-send :
    (config : TrackingConfig) (page : Page) (e : ClickEvent)
    → url_of (send config page e) ≡ config.api_url ++ codes "/events/click"
unfolding send
url_of-send config page e = ground arith

-- On a page with the server's cookie, whose visitor and slug are not empty and hold no colon, and
-- with no referral code in its URL, `init` posts one JSON object to `apiUrl` followed by
-- `/events/click`, with the cookie's visitor under the key `visitorId` and its slug under `slug`,
-- and without the key `visitor_id`; it changes no cookie, leaves no input of the forms empty, and
-- keeps those that had a value.
pub init_server_cookie :
    (random : ℕ → ℕ) (config : TrackingConfig) (page : Page) (w : World) (c d : ℕ) (v s rest : Text)
    → Free b':' (c ∷ v)
    → Free b':' (d ∷ s)
    → page.ref ≡ none
    → get_cookie cookie_name w.jar ≡ found ((c ∷ v) ++ b':' ∷ ((d ∷ s) ++ b':' ∷ rest))
    → (done : Done) × (init random config page w ≡ some done)
      × (done.world ≡ w)
      × (read (codes "visitorId") (body_of done.sent) ≡ some (text (c ∷ v)))
      × (read (codes "slug") (body_of done.sent) ≡ some (text (d ∷ s)))
      × (read (codes "visitor_id") (body_of done.sent) ≡ none)
      × (url_of done.sent ≡ config.api_url ++ codes "/events/click")
      × All IsFilled done.inputs
      × Keeps page.inputs done.inputs
unfolding init finish
init_server_cookie random config page w c d v s rest f g r h =
    let (visitor, code) = server_cookie_parts random w c d v s rest f g h in
    let (visitor_read, slug_read, other_read) = read-send config page _ in
    (
      finish config page w (c ∷ v) (some (d ∷ s)),
      ground (arith, visitor, code),
      refl,
      visitor_read,
      slug_read,
      other_read,
      url_of-send config page _,
      fill_inputs-IsFilled d s page.inputs,
      fill_inputs-Keeps (d ∷ s) page.inputs,
    )
