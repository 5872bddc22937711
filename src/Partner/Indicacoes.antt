-- ===== src/Partner/Indicacoes.antt =====
-- The partner's list of referrals, web/apps/partner/app/(app)/parceiro/indicacoes/page.tsx: its load, the way out,
-- the filter and what it shows.
use indica_ai.Prelude.{
  ℕ, Bool, true, false, Option, none, some, List, [], ◌∷◌, map, String, str_eq, get_or,
  if◌then◌else◌, select,
}
use indica_ai.Http.{Call, Result, resolved, rejected, get_message}
use indica_ai.Dashboard.Words.{dashed}
use indica_ai.Partner.Api.{LeadStatus, PartnerReferral, Message, referrals, logout}
use indica_ai.Partner.Badges.{BadgeVariant, status_label}
use indica_ai.Partner.Home.{looks_missing}

-- The value of the status select: `"all"` or a status.
pub data Filter : Type 0 where
  all : Filter
  only : LeadStatus → Filter

-- `left` once `router.push("/login")` was called.
pub record State : Type 0 where
  pub items : List PartnerReferral
  pub loading : Bool
  pub error : Option String
  pub status_filter : Filter
  pub logging_out : Bool
  pub left : Bool

unfoldable pub opened : State
opened = record {
  items = [];
  loading = true;
  error = none;
  status_filter = all;
  logging_out = false;
  left = false;
}

unfoldable pub list_call : Call (Unit {0}) (List PartnerReferral)
unfolding referrals
list_call = referrals

unfoldable pub loaded : Result (List PartnerReferral) → State → State
loaded (resolved v) s = record s { items = get_or v []; loading = false }
loaded (rejected e) s = record s { error = some (get_message e); loading = false }

unfoldable pub set_status_filter : Filter → State → State
set_status_filter f s = record s { status_filter = f }

-- `handleLogout` up to its `await`, and the rest, which an error does not change.
unfoldable pub handle_logout : State → State × Call (Unit {0}) Message
unfolding logout
handle_logout s = (record s { logging_out = true }, logout)

unfoldable pub logged_out : Result Message → State → State
logged_out r s = record s { left = true }

abbrev pub same_status : LeadStatus → LeadStatus → Bool
same_status LeadStatus.new LeadStatus.new = true
same_status LeadStatus.in_progress LeadStatus.in_progress = true
same_status LeadStatus.qualified LeadStatus.qualified = true
same_status LeadStatus.closed LeadStatus.closed = true
same_status LeadStatus.lost LeadStatus.lost = true
same_status _ _ = false

abbrev pub matches : Filter → PartnerReferral → Bool
matches all r = true
matches (only f) r = same_status r.status f

unfoldable pub filtered : State → List PartnerReferral
filtered s = select (matches s.status_filter) s.items

-- `rewardStatusLabels[s] || s`.
abbrev reward_label : String → String
reward_label s =
    if str_eq s "pending"
    then "comissão pendente"
    else if str_eq s "approved"
    then "comissão aprovada"
    else if str_eq s "paid"
    then "comissão paga"
    else if str_eq s "rejected"
    then "comissão rejeitada"
    else if str_eq s "cancelled"
    then "comissão cancelada"
    else s

-- `reward_cents != null && reward_status`.
abbrev reward_line : Option ℕ → Option String → Option (ℕ × String)
reward_line (some n) (some s) = if str_eq s "" then none else some (n, reward_label s)
reward_line _ _ = none

pub record Card : Type 0 where
  pub name : String
  pub badge : String × BadgeVariant
  pub sale_amount_cents : Option ℕ
  pub reward : Option (ℕ × String)
  pub created_at : String

abbrev card : PartnerReferral → Card
card r = record {
  name = dashed r.lead_name;
  badge = status_label r.status;
  sale_amount_cents = r.sale_amount_cents;
  reward = reward_line r.reward_cents r.reward_status;
  created_at = r.created_at;
}

-- A failure, which offers the way out where the account is taken for one of no partner.
pub data Failure : Type 0 where
  not_a_partner : (logging_out : Bool) → Failure
  message : String → Failure

abbrev failure_of : Bool → Bool → Option String → Option Failure
failure_of missing out none = none
failure_of missing out (some m) =
    if str_eq m ""
    then none
    else if missing
    then some (Failure.not_a_partner out)
    else some (Failure.message m)

pub record View : Type 0 where
  pub loading : Bool
  pub failure : Option Failure
  pub cards : List Card
  pub empty_text : Option String

abbrev empty_text : Bool → List PartnerReferral → List PartnerReferral → Option String
empty_text true items shown = none
empty_text false items (r ∷ rs) = none
empty_text false [] [] = some "Você ainda não tem indicações."
empty_text false (r ∷ rs) [] = some "Nenhuma indicação com este filtro."

unfoldable pub view : State → View
unfolding filtered looks_missing
view s = record {
  loading = s.loading;
  failure = failure_of (looks_missing s.error) s.logging_out s.error;
  cards = map card (filtered s);
  empty_text = empty_text s.loading s.items (filtered s);
}
