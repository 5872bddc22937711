-- ===== src/Programs/Form/Submit.antt =====
-- `publish` of web/apps/dashboard/app/(app)/programas/novo/page.tsx, cut at its `await`.
use Prim.Native.String
use indica_ai.Prelude.{
  Bool, true, false, ◌&&◌, Option, none, some, List, [], ◌∷◌, String, str_eq, codes, if◌then◌else◌,
}
use indica_ai.Js.Strings.{trim, is_empty}
use indica_ai.Http.{Call, Result, resolved, rejected, message_or}
use indica_ai.Toast.{Options, Variant}
use indica_ai.Dashboard.Api.Types.{Program, CreateProgramRequest}
use indica_ai.Dashboard.Api.Endpoints.{programs_create}
use indica_ai.Programs.Tiers.{Tier}
use indica_ai.Programs.Form.{Destination, State, Rules, is_tiered, build_backend_rules}

-- `!v.trim()`.
abbrev pub is_blank : String → Bool
is_blank v = is_empty (trim (codes v))

abbrev pub has_no_tier : List Tier → Bool
has_no_tier [] = true
has_no_tier (t ∷ ts) = false

abbrev pub is_whatsapp : Destination → Bool
is_whatsapp Destination.whatsapp = true
is_whatsapp _ = false

abbrev pub is_site : Destination → Bool
is_site Destination.site = true
is_site _ = false

-- The first complaint of `publish`, if it has one.
unfoldable pub complaint : State → Option String
complaint s =
    if is_blank s.nome
    then some "Nome obrigatório"
    else if is_tiered s.preset && has_no_tier s.tiers
    then some "Adicione pelo menos uma regra"
    else if is_whatsapp s.destino && is_blank s.whatsapp_numero
    then some "Informe o WhatsApp da empresa"
    else if is_site s.destino && is_blank s.site_url
    then some "Informe a URL do site"
    else none

abbrev pub redirect_type : Destination → String
redirect_type Destination.whatsapp = "whatsapp"
redirect_type Destination.site = "website"
redirect_type Destination.landing = "landing"

-- `v || undefined`.
abbrev or_absent : String → Option String
or_absent v = if str_eq v "" then none else some v

abbrev given : Bool → String → Option String
given b v = if b then some v else none

unfoldable pub build_request : State → CreateProgramRequest Rules
unfolding build_backend_rules
build_request s = record {
  name = s.nome;
  description = or_absent s.descricao;
  rules = build_backend_rules s;
  redirect_type = redirect_type s.destino;
  redirect_url = given (is_site s.destino) s.site_url;
  whatsapp_number = given (is_whatsapp s.destino) s.whatsapp_numero;
  settings = none;
}

abbrev note : String → Option String → Variant → Options
note title description variant = record {
  title = some title;
  description = description;
  variant = some variant;
  duration = none;
}

-- Where `publish` is at its `await`, or where it returned: a toast, and the call of
-- `programsApi.create` if it was made.
pub record Progress (J : Type 0) : Type 0 where
  pub state : State
  pub shown : List Options
  pub call : Option (Call (CreateProgramRequest Rules) (Program J))

module _ {J : Type 0} where
  unfoldable pub publish : State → Progress J
  unfolding complaint build_request programs_create
  publish s = elim (complaint s) [
    | some title ↦ record {
      state = s;
      shown = note title none Variant.destructive ∷ [];
      call = none;
    }
    | none ↦ record {
      state = record s { submitting = true };
      shown = [];
      call = some (programs_create (build_request s));
    }
  ]

  -- The rest of `publish`: the state, and the toast; it goes to "/programas" unless the state may be
  -- submitted again.
  unfoldable pub published : Result (Program J) → State → State × Options
  published (resolved p) s = (
    s,
    note "Programa publicado!" (some (String.◌++◌ "\"" (String.◌++◌ s.nome "\" está ativo.")))
        Variant.success,
  )
  published (rejected e) s = (
    record s { submitting = false },
    note "Não foi possível publicar" (some (message_or "Erro inesperado" e)) Variant.destructive,
  )
