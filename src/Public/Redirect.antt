-- ===== src/Public/Redirect.antt =====
-- web/apps/public/app/r/[slug]/page.tsx: the redirect of a referral link to the page of its program.
pub mod Laws
use indica_ai.Prelude.{Option, none, some, List, [], ◌∷◌, ◌++◌, String, Text, codes}
use indica_ai.Js.Params.{Params, set}
use indica_ai.Http.{with_query}

-- A value of `searchParams`: a text, or several.
pub data Value : Type 0 where
  single : Text → Value
  several : List Text → Value

-- The texts are set, in the order of the entries.
unfoldable pub utm_params : List (String × Value) → Params → Params
utm_params [] ps = ps
utm_params ((k, single v) ∷ es) ps = utm_params es (set k v ps)
utm_params ((k, several vs) ∷ es) ps = utm_params es ps

-- What `redirect` is given.
unfoldable pub redirect_url : Text → List (String × Value) → Text
unfolding utm_params
redirect_url slug search = with_query (codes "/p/" ++ slug) (utm_params search [])
