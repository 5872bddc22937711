-- ===== src/Dashboard/Saques/View.antt =====
-- What web/apps/dashboard/app/(app)/saques/page.tsx shows: the totals of its cards, the filtered rows
-- with their menus, and the texts around them. Markup and the formats of money and dates are left
-- out: a row keeps the numbers and dates that are formatted.
use indica_ai.Prelude.{
  ℕ, ◌+◌, Bool, true, false, ◌&&◌, Option, none, some, List, [], ◌∷◌, map, Text, String, codes,
  str_eq, ◌==◌, if◌then◌else◌, select, length,
}
use indica_ai.Js.Strings.{lower, includes}
use indica_ai.Dashboard.Api.Types.{Payout, PayoutStatus}
use indica_ai.Dashboard.Saques.{Filter, all, only, State}

pub PayoutStatus-discrete : Discrete PayoutStatus
PayoutStatus-discrete = hlevel

pub data BadgeVariant : Type 0 where
  warning success destructive default : BadgeVariant

abbrev pub status_label : PayoutStatus → String × BadgeVariant
status_label PayoutStatus.pending = ("Pendente", BadgeVariant.warning)
status_label PayoutStatus.processing = ("Confirmado", BadgeVariant.warning)
status_label PayoutStatus.paid = ("Pago", BadgeVariant.success)
status_label PayoutStatus.failed = ("Falhou", BadgeVariant.destructive)
status_label PayoutStatus.cancelled = ("Cancelado", BadgeVariant.destructive)

pub record Totals : Type 0 where
  pub pending : ℕ
  pub processing : ℕ
  pub paid : ℕ
  pub cancelled : ℕ

-- One round of the loop; the four tests exclude one another.
unfoldable pub add_payout : Totals → PayoutStatus → ℕ → Totals
add_payout acc PayoutStatus.pending c = record acc { pending = acc.pending + c }
add_payout acc PayoutStatus.processing c = record acc { processing = acc.processing + c }
add_payout acc PayoutStatus.paid c = record acc { paid = acc.paid + c }
add_payout acc PayoutStatus.cancelled c = record acc { cancelled = acc.cancelled + c }
add_payout acc PayoutStatus.failed c = record acc { cancelled = acc.cancelled + c }

unfoldable pub totals_from : Totals → List Payout → Totals
unfolding add_payout
totals_from acc [] = acc
totals_from acc (p ∷ ps) = totals_from (add_payout acc p.status p.amount_cents) ps

unfoldable pub totals : List Payout → Totals
unfolding totals_from
totals ps = totals_from (record { pending = 0; processing = 0; paid = 0; cancelled = 0 }) ps

abbrev pub same_status : PayoutStatus → PayoutStatus → Bool
same_status PayoutStatus.pending PayoutStatus.pending = true
same_status PayoutStatus.processing PayoutStatus.processing = true
same_status PayoutStatus.paid PayoutStatus.paid = true
same_status PayoutStatus.failed PayoutStatus.failed = true
same_status PayoutStatus.cancelled PayoutStatus.cancelled = true
same_status _ _ = false

-- `statusFilter === "all" || p.status === statusFilter`.
abbrev pub matches_status : Filter → PayoutStatus → Bool
matches_status all s = true
matches_status (only f) s = same_status s f

unfoldable pub matches : Filter → Text → Payout → Bool
matches f search p =
    matches_status f p.status && includes (lower (codes p.partner_name)) (lower search)

unfoldable pub filtered : State → List Payout
filtered s = select (matches s.status_filter s.search) s.payouts

-- The entries of a row's menu; the last one is disabled.
pub data Item : Type 0 where
  confirm_item paid_item cancel_item no_action : Item

abbrev pub menu : PayoutStatus → List Item
menu PayoutStatus.pending = Item.confirm_item ∷ Item.cancel_item ∷ []
menu PayoutStatus.processing = Item.paid_item ∷ Item.cancel_item ∷ []
menu _ = Item.no_action ∷ []

pub record Row : Type 0 where
  pub id : String
  pub partner_name : String
  pub pix_key : Option String
  pub pix_key_type : Option String
  pub reward_count : Option ℕ
  pub amount_cents : ℕ
  pub badge : String × BadgeVariant
  pub created_at : String
  pub disabled : Bool
  pub items : List Item

-- `busy === p.id`.
abbrev pub is_busy : Option String → String → Bool
is_busy none id = false
is_busy (some k) id = str_eq k id

-- `{t && …}` and `t ? … : …`: an empty string shows as a missing one.
abbrev shown : Option String → Option String
shown none = none
shown (some t) = if str_eq t "" then none else some t

abbrev pub row : Option String → Payout → Row
row busy p = record {
  id = p.id;
  partner_name = p.partner_name;
  pix_key = shown p.pix_key;
  pix_key_type = shown p.pix_key_type;
  reward_count = p.reward_count;
  amount_cents = p.amount_cents;
  badge = status_label p.status;
  created_at = p.created_at;
  disabled = is_busy busy p.id;
  items = menu p.status;
}

-- The table, or what stands in its place.
pub data Body : Type 0 where
  loading_text : Body
  table : (rows : List Row) → (empty_text : Option String) → (count : ℕ) → (noun : String) → Body

pub record View : Type 0 where
  pub create_disabled : Bool
  pub cards : Totals
  pub error : Option String
  pub body : Body

abbrev empty_text : List Payout → List Payout → Option String
empty_text payouts (p ∷ ps) = none
empty_text [] [] = some "Nenhum saque ainda. Use \"Gerar saques\" para agrupar comissões aprovadas."
empty_text (p ∷ ps) [] = some "Nenhum saque com este filtro."

abbrev noun : ℕ → String
noun n = if n == 1 then "saque" else "saques"

unfoldable pub view : State → View
unfolding totals filtered
view s = record {
  create_disabled = is_busy s.busy "__create__";
  cards = totals s.payouts;
  error = shown s.error;
  body =
      if s.loading
      then Body.loading_text
      else Body.table (map (row s.busy) (filtered s)) (empty_text s.payouts (filtered s))
          (length (filtered s)) (noun (length (filtered s)));
}
