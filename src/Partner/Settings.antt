-- ===== src/Partner/Settings.antt =====
-- The partner's settings, web/apps/partner/app/(app)/parceiro/configuracoes/page.tsx, around the Pix key: the load,
-- what is shown, and the buttons, which only show a toast.
use indica_ai.Prelude.{
  Bool, true, false, Option, none, some, List, [], ◌∷◌, String, Text, get_or, if◌then◌else◌,
}
use indica_ai.Http.{Call, Result, resolved, rejected, get_message}
use indica_ai.Dashboard.Words.{shows_error, truthy}
use indica_ai.Toast.{Options, Variant}
use indica_ai.Partner.Api.{PartnerMe, PixKeyType, cpf, cnpj, email, phone, random, me}
use indica_ai.Partner.Pix
use indica_ai.Partner.Pix.{is_disabled}

pub record State (J : Type 0) : Type 0 where
  pub me : Option (PartnerMe J)
  pub loading : Bool
  pub error : Option String
  pub pix : Pix.State

abbrev pub key_type_label : PixKeyType → String
key_type_label cpf = "CPF"
key_type_label cnpj = "CNPJ"
key_type_label email = "E-mail"
key_type_label phone = "Telefone"
key_type_label random = "Aleatória"

abbrev pub placeholder : PixKeyType → String
placeholder cpf = "00000000000"
placeholder cnpj = "00000000000000"
placeholder email = "exemplo@email.com"
placeholder phone = "+5511999990001"
placeholder random = "32 caracteres hexadecimais"

pub record PixView : Type 0 where
  pub options : List (PixKeyType × String)
  pub selected : PixKeyType
  pub placeholder : String
  pub value : Text
  pub error : Option String
  pub disabled : Bool
  pub saving : Bool

abbrev option_of : PixKeyType → PixKeyType × String
option_of k = (k, key_type_label k)

abbrev pix_view : Pix.State → PixView
pix_view s = record {
  options =
      option_of cpf ∷ option_of cnpj ∷ option_of email ∷ option_of phone ∷ option_of random ∷ [];
  selected = s.pix_key_type;
  placeholder = placeholder s.pix_key_type;
  value = s.pix_key_value;
  error = truthy s.pix_error;
  disabled = is_disabled s;
  saving = s.pix_saving;
}

pub data Body : Type 0 where
  loading_text : Body
  error_box : String → Body
  settings : (name : String) → (email : String) → (phone : String) → (pix : PixView) → Body

module _ {J : Type 0} where
  unfoldable pub opened : State J
  unfolding Pix.opened
  opened = record { me = none; loading = true; error = none; pix = Pix.opened }

  unfoldable pub me_call : Call (Unit {0}) (PartnerMe J)
  unfolding me
  me_call = me

  unfoldable pub loaded : Result (PartnerMe J) → State J → State J
  loaded (resolved m) s = record s {
    me = m;
    pix = record (s.pix) { pix_key_value = [] };
    loading = false;
  }
  loaded (rejected e) s = record s { error = some (get_message e); loading = false }

  abbrev failed_body : State J → Body
  failed_body s = error_box (get_or s.error "Não foi possível carregar seus dados.")

  abbrev body_of : Option (PartnerMe J) → State J → Body
  body_of none s = failed_body s
  body_of (some m) s = settings m.name (get_or m.email "") (get_or m.phone_e164 "") (pix_view s.pix)

  unfoldable pub view : State J → Body
  view s =
      if s.loading
      then loading_text
      else if shows_error s.error
      then failed_body s
      else body_of s.me s

abbrev note : String → Option String → Variant → Options
note title description variant = record {
  title = some title;
  description = description;
  variant = some variant;
  duration = none;
}

unfoldable pub request_copy : Options
request_copy =
    note "Solicitação enviada" (some "Você receberá uma cópia dos seus dados em até 15 dias.")
      Variant.success

unfoldable pub request_correction : Options
request_correction =
    note "Solicitação enviada" (some "Entraremos em contato para corrigir seus dados.")
      Variant.success

unfoldable pub request_deletion : Options
request_deletion = note "Tem certeza?" (some "Esta ação é irreversível.") Variant.warning

unfoldable pub save_preferences : Options
save_preferences = note "Preferências salvas" none Variant.success
