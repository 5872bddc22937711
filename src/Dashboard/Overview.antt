-- ===== src/Dashboard/Overview.antt =====
-- The overview of the dashboard, web/apps/dashboard/app/(app)/dashboard/page.tsx: its load, the change on a card
-- with the colour that web/packages/ui/src/components/stat-card.tsx gives it, and the labels of leads.
pub mod Laws
use indica_ai.Prelude.{
  ℕ, zero, suc, ◌+◌, ◌/◌, Bool, true, false, ◌||◌, ◌&&◌, not, Option, none, some, List, [], ◌∷◌,
  ◌++◌, map, String, Text, codes, str_eq, if◌then◌else◌,
}
use indica_ai.Prelude.Int.{ℤ, pos, negsuc}
use indica_ai.Js.Decimal.{decimal}
use indica_ai.Http.{Call, Result, resolved, rejected, get_message}
use indica_ai.Dashboard.Words.{shows_error}
use indica_ai.Dashboard.Api.Types.{DashboardOverview, DayCount, TopPartner, RecentLead, LeadStatus}
use indica_ai.Dashboard.Api.Endpoints.{dashboard_overview}

pub record State : Type 0 where
  pub overview : Option DashboardOverview
  pub loading : Bool
  pub error : Option String

unfoldable pub opened : State
opened = record { overview = none; loading = true; error = none }

unfoldable pub overview_call : Call (Unit {0}) DashboardOverview
unfolding dashboard_overview
overview_call = dashboard_overview

unfoldable pub loaded : Result DashboardOverview → State → State
loaded (resolved v) s = record s { overview = v; loading = false }
loaded (rejected e) s = record s { error = some (get_message e); loading = false }

-- The optional flags of a card's change.
pub record Delta : Type 0 where
  pub value : Text
  pub positive : Bool
  pub neutral : Bool

-- `toFixed(0)` of a number of hundredths.
abbrev to_fixed : ℕ → Text
to_fixed n = decimal ((n + 50) / 100)

abbrev delta_text : Text → ℕ → Text
delta_text arrow n = arrow ++ b' ' ∷ to_fixed n ++ codes "% vs semana passada"

unfoldable pub fmt_delta : ℤ → Delta
fmt_delta (pos zero) = record {
  value = codes "→ 0% vs semana passada";
  positive = false;
  neutral = true;
}
fmt_delta (pos (suc n)) = record {
  value = delta_text (codes "↑") (suc n);
  positive = true;
  neutral = false;
}
fmt_delta (negsuc n) = record {
  value = delta_text (codes "↓") (suc n);
  positive = false;
  neutral = false;
}

pub data Tone : Type 0 where
  success_tone neutral_tone error_tone : Tone

-- The colours of `StatCard` that apply.
abbrev tone_if : Bool → Tone → List Tone
tone_if b t = if b then t ∷ [] else []

unfoldable pub delta_tones : Delta → List Tone
delta_tones d =
    tone_if d.positive success_tone
    ++ tone_if d.neutral neutral_tone
    ++ tone_if (not d.positive && not d.neutral) error_tone

unfoldable pub status_label : String → String
status_label status =
    if str_eq status "closed" || str_eq status "won"
    then "Fechado"
    else if str_eq status "contacted"
    then "Em atendimento"
    else if str_eq status "lost"
    then "Perdido"
    else "Novo"

pub data BadgeVariant : Type 0 where
  success warning destructive default : BadgeVariant

unfoldable pub status_badge : String → BadgeVariant
status_badge status =
    if str_eq status "closed" || str_eq status "won"
    then success
    else if str_eq status "contacted"
    then warning
    else if str_eq status "lost"
    then destructive
    else default

-- A partner of the list, with its place.
pub record Ranked : Type 0 where
  pub place : ℕ
  pub name : String
  pub referrals : ℕ
  pub amount_cents : ℕ

abbrev ranked_from : ℕ → List TopPartner → List Ranked
ranked_from i [] = []
ranked_from i (p ∷ ps) =
    record { place = suc i; name = p.name; referrals = p.referrals; amount_cents = p.amount_cents }
    ∷ ranked_from (suc i) ps

pub record Entry : Type 0 where
  pub name : String
  pub partner_name : String
  pub badge : String × BadgeVariant
  pub created_at : String

abbrev entry : RecentLead → Entry
entry l = record {
  name = l.name;
  partner_name = l.partner_name;
  badge = (status_label l.status, status_badge l.status);
  created_at = l.created_at;
}

pub record Shown : Type 0 where
  pub clicks : ℕ × Delta
  pub leads : ℕ × Delta
  pub pending_rewards_cents : ℕ
  pub active_partners : ℕ
  pub chart : List DayCount
  pub top_partners : List Ranked
  pub recent_leads : List Entry

pub data Body : Type 0 where
  loading_body : Body
  error_body : Option String → Body
  empty_body : Body
  shown_body : Shown → Body

abbrev shown : DashboardOverview → Shown
shown d = record {
  clicks = (d.clicks_last_7_days, fmt_delta d.clicks_delta_pct);
  leads = (d.new_leads_last_7_days, fmt_delta d.leads_delta_pct);
  pending_rewards_cents = d.pending_rewards_cents;
  active_partners = d.active_partners;
  chart = d.clicks_per_day;
  top_partners = ranked_from 0 d.top_partners;
  recent_leads = map entry d.recent_leads;
}

abbrev body_of : Option DashboardOverview → Body
body_of none = empty_body
body_of (some d) = shown_body (shown d)

unfoldable pub view : State → Body
unfolding fmt_delta status_label status_badge
view s =
    if s.loading
    then loading_body
    else if shows_error s.error
    then error_body s.error
    else body_of s.overview
