-- ===== src/Dashboard/Indicacoes/View.antt =====
-- What web/apps/dashboard/app/(app)/indicacoes/table.tsx and sheet.tsx show: the filtered rows with their
-- menus, the texts around them, and the sheet. Formats of money and dates are left out.
use indica_ai.Prelude.{
  ℕ, zero, suc, Bool, true, false, ◌&&◌, Option, none, some, List, [], ◌∷◌, ◌++◌, map, Text, String,
  str_eq, ◌==◌, if◌then◌else◌, select, length,
}
use indica_ai.Js.Strings.{lower, includes}
use indica_ai.Dashboard.Words.{present, join_words, dashed, or_text, truthy, shows_error}
use indica_ai.Dashboard.Api.Types.{Lead, LeadStatus}
use indica_ai.Dashboard.Indicacoes.{
  Filter, all, only, State, Sheet, World, same_status, status_actions,
}

abbrev pub matches_status : Filter → LeadStatus → Bool
matches_status all s = true
matches_status (only f) s = same_status s f

unfoldable pub haystack : Lead → Text
unfolding join_words
haystack l = lower (
    join_words
      (present l.name ++ (present l.email ++ (present l.phone_e164 ++ present l.partner_name))))

unfoldable pub matches : Filter → Text → Lead → Bool
unfolding haystack
matches f search l = includes (haystack l) (lower search) && matches_status f l.status

unfoldable pub filtered : State → List Lead
unfolding matches
filtered s = select (matches s.status_filter s.search) s.leads

-- `sourceLabels[source] || source`; the sheet has a label of its own for a link.
abbrev source_label : (link : String) → String → String
source_label link s =
    if str_eq s "referral"
    then link
    else if str_eq s "manual"
    then "Manual"
    else if str_eq s "whatsapp"
    then "WhatsApp"
    else if str_eq s "widget"
    then "Widget"
    else if str_eq s "import"
    then "Importação"
    else s

-- The label of `LeadStatusBadge`.
abbrev pub badge_label : LeadStatus → String
badge_label LeadStatus.new = "Novo"
badge_label LeadStatus.in_progress = "Em atendimento"
badge_label LeadStatus.qualified = "Qualificado"
badge_label LeadStatus.closed = "Fechado"
badge_label LeadStatus.lost = "Não fechou"

abbrev nonzero : Option ℕ → Option ℕ
nonzero none = none
nonzero (some zero) = none
nonzero (some (suc n)) = some (suc n)

-- An entry of a row's menu; the one of the row's own status is ticked.
pub record Item : Type 0 where
  pub value : LeadStatus
  pub label : String
  pub ticked : Bool

abbrev pub menu : LeadStatus → List Item
menu s = map (λ a. record { value = a.0; label = a.1; ticked = same_status s a.0 }) status_actions

pub record Row : Type 0 where
  pub id : String
  pub name : String
  pub contact : Option String
  pub partner_name : String
  pub program_name : String
  pub source : String
  pub sale_amount_cents : Option ℕ
  pub status : String
  pub created_at : String
  pub disabled : Bool
  pub items : List Item

abbrev pub is_busy : Option String → String → Bool
is_busy none id = false
is_busy (some k) id = str_eq k id

abbrev row : Option String → Lead → Row
row updating l = record {
  id = l.id;
  name = dashed l.name;
  contact = truthy (or_text l.email l.phone_e164);
  partner_name = dashed l.partner_name;
  program_name = l.program_name;
  source = source_label "Link" l.source;
  sale_amount_cents = nonzero l.sale_amount_cents;
  status = badge_label l.status;
  created_at = l.created_at;
  disabled = is_busy updating l.id;
  items = menu l.status;
}

pub record SheetView : Type 0 where
  pub name : String
  pub status : String
  pub partner_name : String
  pub phone : String
  pub email : String
  pub program_name : String
  pub source : String
  pub created_at : String
  pub closed_at : Option String
  pub sale_amount_cents : Option ℕ
  pub notes : Option String
  pub picked : LeadStatus
  pub disabled : Bool
  pub button : String

abbrev sheet_view : Sheet → SheetView
sheet_view s = record {
  name = dashed s.lead.name;
  status = badge_label s.lead.status;
  partner_name = dashed s.lead.partner_name;
  phone = dashed s.lead.phone_e164;
  email = dashed s.lead.email;
  program_name = s.lead.program_name;
  source = source_label "Indicação" s.lead.source;
  created_at = s.lead.created_at;
  closed_at = truthy s.lead.closed_at;
  sale_amount_cents = s.lead.sale_amount_cents;
  notes = truthy s.lead.notes;
  picked = s.status;
  disabled = s.saving;
  button = if s.saving then "Salvando..." else "Salvar";
}

pub data Body : Type 0 where
  loading_text : Body
  error_box : Option String → Body
  table :
      (rows : List Row)
      → (empty_text : Option String) → (count : ℕ) → (noun : String) → (sheet : Option SheetView)
      → Body

abbrev empty_text : List Lead → List Lead → Option String
empty_text leads (r ∷ rs) = none
empty_text [] [] = some "Nenhuma indicação ainda."
empty_text (r ∷ rs) [] = some "Nenhuma indicação encontrada com os filtros aplicados."

abbrev noun : ℕ → String
noun n = if n == 1 then "indicação" else "indicações"

abbrev shown_sheet : Option Sheet → Option SheetView
shown_sheet none = none
shown_sheet (some s) = some (sheet_view s)

unfoldable pub view : World → Body
unfolding filtered
view w =
    if w.page.loading
    then Body.loading_text
    else if shows_error w.page.error
    then Body.error_box w.page.error
    else Body.table (map (row w.page.updating_id) (filtered w.page))
        (empty_text w.page.leads (filtered w.page)) (length (filtered w.page))
        (noun (length (filtered w.page))) (shown_sheet w.sheet)
