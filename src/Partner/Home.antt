-- ===== src/Partner/Home.antt =====
-- The partner's first page, web/apps/partner/app/(app)/parceiro/page.tsx: its load, the way out, the link that
-- is shared, and what is shown. Formats of money and dates are left out.
pub mod Laws
use indica_ai.Prelude.{
  ℕ, zero, suc, ◌+◌, Bool, true, false, Option, none, some, List, [], ◌∷◌, ◌++◌, map, String, Text,
  codes, str_eq, get_or, if◌then◌else◌, take,
}
use indica_ai.Js.Strings.{lower, includes, split}
use indica_ai.Js.Uri.{encode_uri}
use indica_ai.Js.Promises.{Both, both, one_failed}
use indica_ai.Http.{Call, Result, resolved, rejected, get_message}
use indica_ai.Dashboard.Words.{shows_error, dashed, truthy}
use indica_ai.Partner.Api.{PartnerMe, PartnerReferral, Message, me, referrals, logout}
use indica_ai.Partner.Badges.{BadgeVariant, status_label}

-- `left` once `router.push("/login")` was called.
pub record State (J : Type 0) : Type 0 where
  pub me : Option (PartnerMe J)
  pub referrals : List PartnerReferral
  pub loading : Bool
  pub error : Option String
  pub logging_out : Bool
  pub left : Bool

pub record Entry : Type 0 where
  pub name : String
  pub created_at : String
  pub badge : String × BadgeVariant
  pub sale_amount_cents : Option ℕ

-- What is shown; of a page that failed, whether it takes the account for one of no partner.
pub data Body : Type 0 where
  loading_text : Body
  failure : (looks_missing : Bool) → (message : Option String) → (logging_out : Bool) → Body
  dashboard :
      (first_name : Text)
      → (link : Option String) → (program_name : String) → (to_receive referrals clicks : ℕ)
      → (recent : List Entry) → (logging_out : Bool) → Body

abbrev nonzero : Option ℕ → Option ℕ
nonzero none = none
nonzero (some zero) = none
nonzero (some (suc n)) = some (suc n)

abbrev entry : PartnerReferral → Entry
entry r = record {
  name = dashed r.lead_name;
  created_at = r.created_at;
  badge = status_label r.status;
  sale_amount_cents = nonzero r.sale_amount_cents;
}

-- `error?.toLowerCase().includes("partner not found")`.
unfoldable pub looks_missing : Option String → Bool
looks_missing none = false
looks_missing (some m) = includes (lower (codes m)) (codes "partner not found")

-- `s.split(" ")[0]`.
abbrev head_of : List Text → Text
head_of [] = []
head_of (w ∷ ws) = w

unfoldable pub first_name : String → Text
unfolding split
first_name name = head_of (split b' ' (codes name))

abbrev pub message_text : Text → Text
message_text url = codes "Oi! Olha esse desconto/oferta especial: " ++ url

abbrev pub share_prefix : Text
share_prefix = codes "https://wa.me/?text="

unfoldable pub share_url : Text → Text
share_url url = share_prefix ++ encode_uri (message_text url)

module _ {J : Type 0} where
  unfoldable pub opened : State J
  opened = record {
    me = none;
    referrals = [];
    loading = true;
    error = none;
    logging_out = false;
    left = false;
  }

  unfoldable pub me_call : Call (Unit {0}) (PartnerMe J)
  unfolding me
  me_call = me

  unfoldable pub loaded : Both (PartnerMe J) (List PartnerReferral) → State J → State J
  loaded (both m refs) s = record s { me = m; referrals = get_or refs []; loading = false }
  loaded (one_failed e) s = record s { error = some (get_message e); loading = false }

  -- `handleLogout` up to its `await`, and the rest, which an error does not change.
  unfoldable pub handle_logout : State J → State J × Call (Unit {0}) Message
  unfolding logout
  handle_logout s = (record s { logging_out = true }, logout)

  unfoldable pub logged_out : Result Message → State J → State J
  logged_out r s = record s { left = true }

  -- `whatsappShare`: the URL that is opened.
  unfoldable pub whatsapp_share : PartnerMe J → Option Text
  unfolding share_url
  whatsapp_share m = elim m.link_url [
    | none ↦ none
    | some url ↦ if str_eq url "" then none else some (share_url (codes url))
  ]

  abbrev home : PartnerMe J → State J → Body
  home m s =
      Body.dashboard (first_name m.name) (truthy m.link_url) m.program_name
        (m.pending_rewards_cents + m.approved_rewards_cents) m.referrals m.clicks
        (map entry (take 5 s.referrals)) s.logging_out

  abbrev failed_body : State J → Body
  failed_body s = Body.failure (looks_missing s.error) s.error s.logging_out

  unfoldable pub view : State J → Body
  unfolding looks_missing first_name
  view s =
      if s.loading
      then Body.loading_text
      else if shows_error s.error
      then failed_body s
      else elim s.me [ none ↦ failed_body s | some m ↦ home m s ]

unfoldable pub referrals_call : Call (Unit {0}) (List PartnerReferral)
unfolding referrals
referrals_call = referrals
