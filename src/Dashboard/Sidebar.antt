-- ===== src/Dashboard/Sidebar.antt =====
-- `Sidebar` of web/apps/dashboard/app/components/sidebar.tsx: its state and handlers, the entries with the
-- one of the current page, and the card of the tenant.
pub mod Laws
use indica_ai.Prelude.{
  ℕ, ◌-◌, Bool, true, false, ◌&&◌, ◌||◌, not, Option, none, some, List, [], ◌∷◌, ◌++◌, map, String,
  Text, codes, str_eq, leb, ◌==◌, if◌then◌else◌,
}
use indica_ai.Js.Strings.{starts_with}
use indica_ai.Http.{Call, Result, resolved, rejected}
use indica_ai.Dashboard.Words.{dashed}
use indica_ai.Dashboard.Api.Types.{Me}
use indica_ai.Dashboard.Api.Endpoints.{Fields, auth_me, auth_logout}

pub record Item : Type 0 where
  pub name : String
  pub href : String

abbrev item : String → String → Item
item name href = record { name = name; href = href }

abbrev pub navigation : List Item
navigation =
    item "Visão geral" "/dashboard"
    ∷ item "Programas" "/programas"
    ∷ item "Parceiros" "/parceiros"
    ∷ item "Indicações" "/indicacoes"
    ∷ item "Comissões" "/comissoes"
    ∷ item "Saques" "/saques"
    ∷ item "Auditoria" "/auditoria"
    ∷ []

abbrev pub bottom_navigation : List Item
bottom_navigation = item "Configurações" "/configuracoes" ∷ []

-- `a === b`.
unfoldable pub same_text : Text → Text → Bool
same_text [] [] = true
same_text (a ∷ s) (b ∷ t) = a == b && same_text s t
same_text _ _ = false

unfoldable pub is_active : Text → Item → Bool
unfolding same_text starts_with
is_active path i =
    if str_eq i.href "/dashboard"
    then same_text path (codes "/dashboard")
    else same_text path (codes i.href) || starts_with path (codes i.href ++ b'/' ∷ [])

unfoldable pub is_bottom_active : Text → Item → Bool
unfolding same_text
is_bottom_active path i = same_text path (codes i.href)

-- The entries of both lists, each with whether it is marked.
unfoldable pub entries : Text → List (Item × Bool)
unfolding is_active is_bottom_active
entries path =
    map (λ i. (i, is_active path i)) navigation
    ++ map (λ i. (i, is_bottom_active path i)) bottom_navigation

-- `left` once `router.push("/login")` was called.
pub record State : Type 0 where
  pub mobile_open : Bool
  pub me : Option Me
  pub logging_out : Bool
  pub left : Bool

unfoldable pub opened : State
opened = record { mobile_open = false; me = none; logging_out = false; left = false }

unfoldable pub me_call : Call (Unit {0}) Me
unfolding auth_me
me_call = auth_me

unfoldable pub loaded : Result Me → State → State
loaded (resolved m) s = record s { me = m }
loaded (rejected e) s = record s { me = none }

unfoldable pub set_mobile_open : Bool → State → State
set_mobile_open b s = record s { mobile_open = b }

-- `handleLogout` up to its `await`, and the rest, which an error does not change.
unfoldable pub handle_logout : State → State × Call (Unit {0}) Fields
unfolding auth_logout
handle_logout s = (record s { logging_out = true }, auth_logout)

unfoldable pub logged_out : Result Fields → State → State
logged_out r s = record s { left = true }

-- `toUpperCase` of a unit of Latin-1; others are left as they are.
abbrev upper_unit : ℕ → Text
upper_unit c =
    if leb b'a' c && leb c b'z' || leb 224 c && leb c 254 && not (c == 247)
    then (c - 32) ∷ []
    else if c == 223
    then b'S' ∷ b'S' ∷ []
    else if c == 255
    then 376 ∷ []
    else if c == 181
    then 924 ∷ []
    else c ∷ []

-- `name?.charAt(0).toUpperCase() || rest`.
abbrev initial_or : Text → Text → Text
initial_or [] rest = rest
initial_or (c ∷ t) rest = upper_unit c

abbrev text_of : Option String → Text
text_of none = []
text_of (some v) = codes v

unfoldable pub tenant_initial : Option Me → Text
tenant_initial none = codes "?"
tenant_initial (some m) = initial_or (text_of m.tenant_name) (initial_or (codes m.name) (codes "?"))

-- The card of the tenant.
pub record Card : Type 0 where
  pub initial : Text
  pub tenant_name : String
  pub email : String
  pub logging_out : Bool

abbrev tenant_of : Option Me → Option String
tenant_of none = none
tenant_of (some m) = m.tenant_name

abbrev email_of : Option Me → String
email_of none = ""
email_of (some m) = m.email

unfoldable pub card : State → Card
unfolding tenant_initial
card s = record {
  initial = tenant_initial s.me;
  tenant_name = dashed (tenant_of s.me);
  email = email_of s.me;
  logging_out = s.logging_out;
}
