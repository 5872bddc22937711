-- ===== src/Partner/Referral.antt =====
-- The page of web/apps/partner/app/(app)/parceiro/indicacoes/nova/page.tsx: the loading of the program
-- and `handleSubmit`, cut at its `await`.
pub mod Laws
use indica_ai.Prelude.{
  Bool, true, false, Option, none, some, List, [], ◌∷◌, String, Text, str_eq, if◌then◌else◌, get_or,
}
use indica_ai.Prelude.Int.{ℤ, pos}
use indica_ai.Js.Strings.{trim, is_empty}
use indica_ai.Http.{Call, Result, resolved, rejected, message_or}
use indica_ai.Partner.Api.{
  PartnerMe, RewardRule, CreatePartnerLeadRequest, CreatedLead, create_lead,
}
use indica_ai.Partner.Phone.{normalize_phone}
use indica_ai.Partner.Split

pub record State : Type 0 where
  pub loading_me : Bool
  pub nome : String
  pub phone : Text
  pub email : String
  pub notes : String
  pub is_loading : Bool
  pub split : Split.State

unfoldable pub opened : State
unfolding Split.opened
opened = record {
  loading_me = true;
  nome = "";
  phone = [];
  email = "";
  notes = "";
  is_loading = false;
  split = Split.opened;
}

-- `isFlexible` and `maxPct` of a loaded partner: the ceiling of a flexible split, 0 where it has none.
abbrev ceiling_of_reward : {J : Type 0} → Option (RewardRule J) → Option ℤ
ceiling_of_reward none = none
ceiling_of_reward (some r) =
    if str_eq r.kind "flexible_split" then some (get_or r.max_pct (pos 0)) else none

unfoldable pub ceiling_of : {J : Type 0} → Option (PartnerMe J) → Option ℤ
ceiling_of none = none
ceiling_of (some me) = ceiling_of_reward me.program_rules.reward

-- The answer of `partnerApi.me()`; an error leaves no partner.
unfoldable pub loaded : {J : Type 0} → Result (PartnerMe J) → State → State
unfolding ceiling_of Split.step
loaded (resolved me) s = record s {
  loading_me = false;
  split = Split.step (Split.loaded (ceiling_of me)) s.split;
}
loaded (rejected e) s = record s {
  loading_me = false;
  split = Split.step (Split.loaded none) s.split;
}

-- `v || undefined`.
abbrev or_absent : String → Option String
or_absent v = if str_eq v "" then none else some v

unfoldable pub build_lead : State → CreatePartnerLeadRequest
unfolding normalize_phone Split.computed_split
build_lead s = record {
  name = or_absent s.nome;
  phone_e164 = normalize_phone s.phone;
  email = or_absent s.email;
  notes = or_absent s.notes;
  split_choice = Split.computed_split s.split;
}

-- Where `handleSubmit` is at its `await`, or returned: a toast's title, and the call if it was made.
pub record Progress : Type 0 where
  pub state : State
  pub complaint : Option String
  pub call : Option (Call CreatePartnerLeadRequest CreatedLead)

unfoldable pub handle_submit : State → Progress
unfolding trim Split.split_invalid build_lead create_lead
handle_submit s =
    if is_empty (trim s.phone)
    then record { state = s; complaint = some "WhatsApp obrigatório"; call = none }
    else if Split.split_invalid s.split
    then record { state = s; complaint = some "Divisão inválida"; call = none }
    else record {
      state = record s { is_loading = true };
      complaint = none;
      call = some (create_lead (build_lead s));
    }

-- The rest of it: the state, and the title and the text of the toast; after a success the page goes to
-- the list.
unfoldable pub submitted : Result CreatedLead → State → State × (String × Option String)
submitted (resolved v) s = (s, ("Indicação cadastrada!", none))
submitted (rejected e) s = (
  record s { is_loading = false },
  ("Não foi possível cadastrar", some (message_or "Erro inesperado" e)),
)

-- Whether the button is disabled.
unfoldable pub is_disabled : State → Bool
unfolding Split.split_invalid
is_disabled s = if s.is_loading then true else Split.split_invalid s.split
