-- ===== src/Partner/Extrato.antt =====
-- The partner's statement, web/apps/partner/app/(app)/parceiro/extrato/page.tsx: its load and what it shows.
use indica_ai.Prelude.{
  ℕ, Bool, true, false, Option, none, some, List, [], map, String, if◌then◌else◌,
}
use indica_ai.Js.Promises.{Both, both, one_failed}
use indica_ai.Http.{Call, get_message}
use indica_ai.Dashboard.Words.{shows_error, truthy}
use indica_ai.Partner.Api.{Wallet, Payout, Payouts, PayoutStatus, wallet, payouts}
use indica_ai.Partner.Badges.{BadgeVariant}

pub record State (J : Type 0) : Type 0 where
  pub wallet : Option Wallet
  pub payouts : List (Payout J)
  pub loading : Bool
  pub error : Option String

abbrev pub status_config : PayoutStatus → String × BadgeVariant
status_config PayoutStatus.pending = ("Aguardando processamento", BadgeVariant.warning)
status_config PayoutStatus.processing = ("Em processamento", BadgeVariant.warning)
status_config PayoutStatus.paid = ("Pago", BadgeVariant.success)
status_config PayoutStatus.failed = ("Falhou", BadgeVariant.destructive)
status_config PayoutStatus.cancelled = ("Cancelado", BadgeVariant.default)

-- `wallet?.available_cents ?? 0` and its like.
pub record Cards : Type 0 where
  pub available : ℕ
  pub hold : ℕ
  pub pending : ℕ
  pub paid : ℕ

abbrev pub cards : Option Wallet → Cards
cards none = record { available = 0; hold = 0; pending = 0; paid = 0 }
cards (some w) = record {
  available = w.available_cents;
  hold = w.hold_cents;
  pending = w.pending_cents;
  paid = w.total_paid_cents;
}

pub record Entry : Type 0 where
  pub created_at : String
  pub pix_key : Option String
  pub amount_cents : ℕ
  pub badge : String × BadgeVariant

pub data Body : Type 0 where
  loading_text : Body
  error_box : Option String → Body
  statement : (cards : Cards) → (entries : List Entry) → Body

module _ {J : Type 0} where
  unfoldable pub opened : State J
  opened = record { wallet = none; payouts = []; loading = true; error = none }

  unfoldable pub payouts_call : Call (Unit {0}) (Payouts J)
  unfolding payouts
  payouts_call = payouts (some 50) none

  -- To read `items` of null throws, behind `setWallet(w)`.
  unfoldable pub loaded : (null_message : String) → Both Wallet (Payouts J) → State J → State J
  loaded null_message (both w (some p)) s = record s {
    wallet = w;
    payouts = p.items;
    loading = false;
  }
  loaded null_message (both w none) s = record s {
    wallet = w;
    error = some null_message;
    loading = false;
  }
  loaded null_message (one_failed e) s = record s { error = some (get_message e); loading = false }

  abbrev entry : Payout J → Entry
  entry p = record {
    created_at = p.created_at;
    pix_key = truthy p.pix_key;
    amount_cents = p.amount_cents;
    badge = status_config p.status;
  }

  unfoldable pub view : State J → Body
  view s =
      if s.loading
      then Body.loading_text
      else if shows_error s.error
      then Body.error_box s.error
      else Body.statement (cards s.wallet) (map entry s.payouts)

unfoldable pub wallet_call : Call (Unit {0}) Wallet
unfolding wallet
wallet_call = wallet
