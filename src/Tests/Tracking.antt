-- ===== src/Tests/Tracking.antt =====
-- A first visit, and a visit with the server's cookie.
use indica_ai.Prelude.{ℕ, ◌≡◌, ◌<◌, refl, true, none, some, [], ◌∷◌, ◌++◌, Text, codes, All, arith}
use indica_ai.Js.Uri.{decode_uri}
use indica_ai.Tracking.Cookies.{
  cookie_name, cookie_text, cookie_string, match_cookie, get_cookie, set_cookie, found, text_eq,
  strip_prefix, run, value_at, scan,
}
use indica_ai.Tracking.Cookies.Laws.{Lacks, get_cookie-set_cookie}
use indica_ai.Tracking.Visitor.{World, template, get_visitor_id}
use indica_ai.Tracking.Visitor.Laws.{Fits, get_visitor_id_stable}
use indica_ai.Tracking.Widget.{TrackingConfig, Page, html, other, text, Done, init}
use indica_ai.Tracking.Widget.Laws.{IsFilled, Keeps, read, body_of, url_of, init_server_cookie}

abbrev dice : ℕ → ℕ
dice k = 7

dice_below : (k : ℕ) → dice k < 16
dice_below k = omega arith

abbrev fresh : World
fresh = record { secure = true; jar = (codes "lang", codes "pt") ∷ []; draws = 0 }

fresh-Lacks : Lacks cookie_text fresh.jar
unfolding text_eq
fresh-Lacks = (refl, tt)

fresh_unmatched : match_cookie cookie_name (cookie_string fresh.jar) ≡ none
unfolding match_cookie cookie_string scan value_at strip_prefix run
fresh_unmatched = refl

get_visitor_id_stable_example :
    (id : Text) × (w' : World) × (get_visitor_id dice fresh ≡ some (id, w'))
    × Fits template id
    × (get_visitor_id dice w' ≡ some (id, w'))
get_visitor_id_stable_example =
    get_visitor_id_stable dice fresh dice_below refl fresh-Lacks fresh_unmatched

get_cookie-set_cookie_example :
    get_cookie cookie_name (set_cookie true cookie_name (codes "v1") fresh.jar) ≡ found (codes "v1")
get_cookie-set_cookie_example =
    get_cookie-set_cookie cookie_name fresh.jar b'v' (codes "1") (refl, (refl, tt)) fresh-Lacks
      fresh_unmatched

abbrev returning : World
returning = record {
  secure = true;
  jar = (cookie_text, codes "v1%3Aloja%3A1700%3Aab") ∷ [];
  draws = 0;
}

returning_cookie :
    get_cookie cookie_name returning.jar
    ≡ found (codes "v1" ++ b':' ∷ (codes "loja" ++ b':' ∷ codes "1700:ab"))
unfolding get_cookie match_cookie cookie_string scan value_at strip_prefix run decode_uri
returning_cookie = refl

abbrev config : TrackingConfig
config = record {
  api_url = codes "https://api.indica.ai";
  tenant_id = codes "t";
  program_id = none;
}

abbrev page : Page
page = record {
  ref = none;
  inputs = html [] ∷ html (codes "outro") ∷ other ∷ [];
  referrer = [];
  href = codes "https://loja.com/";
  now = 1700;
  has_beacon = true;
}

init_server_cookie_example :
    (done : Done) × (init dice config page returning ≡ some done)
    × (done.world ≡ returning)
    × (read (codes "visitorId") (body_of done.sent) ≡ some (text (codes "v1")))
    × (read (codes "slug") (body_of done.sent) ≡ some (text (codes "loja")))
    × (read (codes "visitor_id") (body_of done.sent) ≡ none)
    × (url_of done.sent ≡ config.api_url ++ codes "/events/click")
    × All IsFilled done.inputs
    × Keeps page.inputs done.inputs
init_server_cookie_example =
    init_server_cookie dice config page returning b'v' b'l' (codes "1") (codes "oja")
      (codes "1700:ab") (omega arith) (omega arith) refl returning_cookie
