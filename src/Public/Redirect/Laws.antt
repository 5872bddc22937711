-- ===== src/Public/Redirect/Laws.antt =====
-- Lemmas about the redirect of web/apps/public/app/r/[slug]/page.tsx.
use indica_ai.Prelude.{◌≡◌, false, List, [], ◌∷◌, String, All, str_eq}
use indica_ai.Js.Params.{Params}
use indica_ai.Public.Redirect.{Value, single, several}

-- The parameters with one value.
abbrev pub texts_of : List (String × Value) → Params
texts_of [] = []
texts_of ((k, single v) ∷ es) = (k, v) ∷ texts_of es
texts_of ((k, several vs) ∷ es) = texts_of es

-- No parameter has the key.
abbrev Lacks : Params → String → Type 0
Lacks ps k = All (λ p. str_eq p.0 k ≡ false) ps

-- Each key stands once, as in any object.
abbrev pub IsDistinct : List (String × Value) → Type 0
IsDistinct [] = Unit
IsDistinct (e ∷ es) = All (λ d. str_eq e.0 d.0 ≡ false) es × IsDistinct es
