-- ===== src/Dashboard/Comissoes/View.antt =====
-- What web/apps/dashboard/app/(app)/comissoes/page.tsx shows: the cards, the filtered rows with their
-- menus, and the texts around them. Markup and the formats of money and dates are left out: an amount
-- is the cents that are divided by 100 and formatted.
use indica_ai.Prelude.{
  ℕ, ◌+◌, Bool, true, false, ◌&&◌, Option, none, some, List, [], ◌∷◌, ◌++◌, map, Text, String,
  str_eq, ◌==◌, if◌then◌else◌, select, length,
}
use indica_ai.Js.Strings.{lower, includes}
use indica_ai.Dashboard.Words.{present, join_words, dashed}
use indica_ai.Dashboard.Api.Types.{Reward, RewardStatus, RewardSummary}
use indica_ai.Dashboard.Comissoes.{Filter, all, only, State}

pub data BadgeVariant : Type 0 where
  warning success destructive default : BadgeVariant

abbrev pub status_label : RewardStatus → String × BadgeVariant
status_label RewardStatus.pending = ("Pendente", BadgeVariant.warning)
status_label RewardStatus.approved = ("Aprovada", BadgeVariant.success)
status_label RewardStatus.paid = ("Paga", BadgeVariant.success)
status_label RewardStatus.rejected = ("Rejeitada", BadgeVariant.destructive)
status_label RewardStatus.cancelled = ("Cancelada", BadgeVariant.destructive)

pub record Cards : Type 0 where
  pub pending : ℕ
  pub approved : ℕ
  pub paid : ℕ
  pub rejected : ℕ

unfoldable pub cards : Option RewardSummary → Cards
cards none = record { pending = 0; approved = 0; paid = 0; rejected = 0 }
cards (some s) = record {
  pending = s.pending;
  approved = s.approved;
  paid = s.paid;
  rejected = s.rejected + s.cancelled;
}

abbrev pub same_status : RewardStatus → RewardStatus → Bool
same_status RewardStatus.pending RewardStatus.pending = true
same_status RewardStatus.approved RewardStatus.approved = true
same_status RewardStatus.paid RewardStatus.paid = true
same_status RewardStatus.rejected RewardStatus.rejected = true
same_status RewardStatus.cancelled RewardStatus.cancelled = true
same_status _ _ = false

abbrev pub matches_status : Filter → RewardStatus → Bool
matches_status all s = true
matches_status (only f) s = same_status s f

unfoldable pub haystack : Reward → Text
unfolding join_words
haystack r = lower (
    join_words
      (present (some r.partner_name) ++ (present r.lead_name ++ present (some r.program_name))))

unfoldable pub matches : Filter → Text → Reward → Bool
unfolding haystack
matches f search r = matches_status f r.status && includes (haystack r) (lower search)

unfoldable pub filtered : State → List Reward
unfolding matches
filtered s = select (matches s.status_filter s.search) s.rewards

-- The entries of a row's menu; the last one is disabled.
pub data Item : Type 0 where
  approve_item reject_item no_action : Item

abbrev pub menu : RewardStatus → List Item
menu RewardStatus.pending = Item.approve_item ∷ Item.reject_item ∷ []
menu _ = Item.no_action ∷ []

pub record Row : Type 0 where
  pub id : String
  pub partner_name : String
  pub lead_name : String
  pub program_name : String
  pub amount_cents : ℕ
  pub badge : String × BadgeVariant
  pub created_at : String
  pub disabled : Bool
  pub items : List Item

abbrev pub is_busy : Option String → String → Bool
is_busy none id = false
is_busy (some k) id = str_eq k id

abbrev pub row : Option String → Reward → Row
row busy r = record {
  id = r.id;
  partner_name = r.partner_name;
  lead_name = dashed r.lead_name;
  program_name = r.program_name;
  amount_cents = r.amount_cents;
  badge = status_label r.status;
  created_at = r.created_at;
  disabled = is_busy busy r.id;
  items = menu r.status;
}

pub data Body : Type 0 where
  loading_text : Body
  table : (rows : List Row) → (empty_text : Option String) → (count : ℕ) → (noun : String) → Body

pub record View : Type 0 where
  pub shown_cards : Cards
  pub error : Option String
  pub body : Body

abbrev empty_text : List Reward → List Reward → Option String
empty_text rewards (r ∷ rs) = none
empty_text [] [] = some "Nenhuma comissão ainda."
empty_text (r ∷ rs) [] = some "Nenhuma comissão com este filtro."

abbrev noun : ℕ → String
noun n = if n == 1 then "comissão" else "comissões"

unfoldable pub view : State → View
unfolding cards filtered
view s = record {
  shown_cards = cards s.summary;
  error = s.error;
  body =
      if s.loading
      then Body.loading_text
      else Body.table (map (row s.busy) (filtered s)) (empty_text s.rewards (filtered s))
          (length (filtered s)) (noun (length (filtered s)));
}
