-- ===== src/Dashboard/Tenants.antt =====
-- The administrator's list of tenants, web/apps/dashboard/app/(admin)/admin/tenants/page.tsx. The tenants are
-- sample data, an argument here.
use indica_ai.Prelude.{
  ℕ, Bool, true, false, ◌&&◌, Option, none, some, List, [], ◌∷◌, map, String, Text, codes, length,
  select,
}
use indica_ai.Js.Strings.{lower, includes}
use indica_ai.Toast.{Options, Variant}
use Prim.Native.String

pub data TenantStatus : Type 0 where
  active trial suspended : TenantStatus

pub data Plan : Type 0 where
  free starter pro enterprise : Plan

pub record Tenant : Type 0 where
  pub id : String
  pub nome : String
  pub subdominio : String
  pub cnpj : String
  pub plano : Plan
  pub status : TenantStatus
  pub parceiros : ℕ
  pub leads : ℕ
  pub mrr : ℕ
  pub criado_em : String
  pub dono : String
  pub dono_email : String

pub data Filter : Type 0 where
  all : Filter
  only : TenantStatus → Filter

pub record State : Type 0 where
  pub search : Text
  pub status_filter : Filter

unfoldable pub opened : State
opened = record { search = []; status_filter = all }

unfoldable pub set_search : Text → State → State
set_search v s = record s { search = v }

unfoldable pub set_status_filter : Filter → State → State
set_status_filter f s = record s { status_filter = f }

abbrev same_status : TenantStatus → TenantStatus → Bool
same_status TenantStatus.active TenantStatus.active = true
same_status TenantStatus.trial TenantStatus.trial = true
same_status TenantStatus.suspended TenantStatus.suspended = true
same_status _ _ = false

abbrev matches_status : Filter → TenantStatus → Bool
matches_status all k = true
matches_status (only f) k = same_status k f

unfoldable pub matches : State → Tenant → Bool
matches s t =
    includes (lower (codes t.nome)) (lower s.search) && matches_status s.status_filter t.status

unfoldable pub filtered : List Tenant → State → List Tenant
unfolding matches
filtered tenants s = select (matches s) tenants

abbrev note : String → String → Option Variant → Options
note title description variant = record {
  title = some title;
  description = some description;
  variant = variant;
  duration = none;
}

unfoldable pub invite : Options
invite = note "Convite simulado" "Formulário de convite será aberto." none

unfoldable pub handle_impersonate : Tenant → Options
handle_impersonate t =
    note "Impersonate simulado" (String.◌++◌ "Acessando como " (String.◌++◌ t.nome "..."))
      (some Variant.default)

unfoldable pub handle_suspend : Tenant → Options
handle_suspend t =
    note "Ação simulada" (String.◌++◌ "Tenant " (String.◌++◌ t.nome " suspenso."))
      (some Variant.warning)

pub data BadgeVariant : Type 0 where
  success warning destructive : BadgeVariant

abbrev pub badge : TenantStatus → String × BadgeVariant
badge TenantStatus.active = ("Ativo", success)
badge TenantStatus.trial = ("Trial", warning)
badge TenantStatus.suspended = ("Suspenso", destructive)

abbrev can_suspend : TenantStatus → Bool
can_suspend TenantStatus.suspended = false
can_suspend _ = true

abbrev plan_text : Plan → String
plan_text Plan.free = "Free"
plan_text Plan.starter = "Starter"
plan_text Plan.pro = "Pro"
plan_text Plan.enterprise = "Enterprise"

pub record Row : Type 0 where
  pub nome : String
  pub host : String
  pub plano : String
  pub badge : String × BadgeVariant
  pub parceiros : ℕ
  pub mrr : ℕ
  pub criado_em : String
  pub can_suspend : Bool

abbrev row : Tenant → Row
row t = record {
  nome = t.nome;
  host = String.◌++◌ t.subdominio ".indica.ai";
  plano = plan_text t.plano;
  badge = badge t.status;
  parceiros = t.parceiros;
  mrr = t.mrr;
  criado_em = t.criado_em;
  can_suspend = can_suspend t.status;
}

-- The table, with "Mostrando first-last de total".
pub record View : Type 0 where
  pub rows : List Row
  pub empty_text : Option String
  pub first_shown : ℕ
  pub last_shown : ℕ
  pub total : ℕ

abbrev empty_text : List Tenant → Option String
empty_text [] = some "Nenhum tenant encontrado com os filtros aplicados."
empty_text (t ∷ ts) = none

unfoldable pub view : List Tenant → State → View
unfolding filtered
view tenants s =
    let found = filtered tenants s in
    record {
      rows = map row found;
      empty_text = empty_text found;
      first_shown = 1;
      last_shown = length found;
      total = length found;
    }
