-- ===== src/Tests/Partner.antt =====
-- Keys, phones and splits of the partner's pages.
use indica_ai.Prelude.{
  ◌≡◌, ◌≢◌, ◌↔◌, refl, true, false, none, some, List, [], ◌∷◌, ◌++◌, String, Text, codes, All,
  length, eq_iff,
}
use indica_ai.Prelude.Int.{pos}
use indica_ai.Js.Strings.{trim, is_space, is_digit}
use indica_ai.Js.Regex.{test}
use indica_ai.Partner.Api.{PartnerMe, cpf, cnpj, random, email, phone}
use indica_ai.Partner.Pix.{pix_key_regex, server_regex, validate_pix_key, is_hex}
use indica_ai.Partner.Pix.Laws.{
  validate_pix_key-digits, validate_pix_key-server, server-validate_pix_key,
}
use indica_ai.Partner.Home.{message_text, share_prefix, whatsapp_share}
use indica_ai.Partner.Home.Laws.{whatsapp_share-message}
use indica_ai.Js.Uri.{decode_uri}
use indica_ai.Js.Uri.Laws.{IsInner, IsScalar-ascii}
use indica_ai.Partner.Phone.{digits_of, normalize_phone}
use indica_ai.Partner.Split
use indica_ai.Partner.Split.Laws.{is_refused-build, run, split_invalid-run}

abbrev key : Text
key = codes " ana@ex.com "

key_accepted : test (server_regex email) (trim key) ≡ true
unfolding test server_regex trim is_space
key_accepted = refl

validate_pix_key-server_example : validate_pix_key key email ≡ none
validate_pix_key-server_example = validate_pix_key-server key email key_accepted

abbrev telephone : Text
telephone = codes "+5511999990001"

telephone_valid : validate_pix_key telephone phone ≡ none
unfolding validate_pix_key test pix_key_regex trim is_space
telephone_valid = refl

server-validate_pix_key_example : test (server_regex phone) (trim telephone) ≡ true
server-validate_pix_key_example = server-validate_pix_key telephone phone (λ e. cc) telephone_valid

validate_pix_key-digits_example :
    ((validate_pix_key telephone cpf ≡ none)
      ↔ ((length (trim telephone) ≡ 11) × All (λ c. is_digit c ≡ true) (trim telephone)))
    × (((validate_pix_key telephone cnpj ≡ none)
          ↔ ((length (trim telephone) ≡ 14) × All (λ c. is_digit c ≡ true) (trim telephone)))
        × ((validate_pix_key telephone random ≡ none)
            ↔ ((length (trim telephone) ≡ 32) × All (λ c. is_hex c ≡ true) (trim telephone))))
validate_pix_key-digits_example = validate_pix_key-digits telephone

-- An e-mail that the page accepts and the back end refuses.
accented :
    (validate_pix_key (codes "josé@ex.com") email ≡ none)
    × (test (server_regex email) (trim (codes "josé@ex.com")) ≡ false)
unfolding validate_pix_key test pix_key_regex server_regex trim is_space
accented = (refl, refl)

-- A number of the United States in the international form is taken for a Brazilian one.
foreign : normalize_phone (codes "+1 202 555 0123") ≡ codes "+5512025550123"
unfolding normalize_phone digits_of
foreign = refl

is_refused-build_example :
    (Split.is_over (pos 20000) (Split.build Split.half (pos 20000)) ≡ false)
    × (Split.is_refused (pos 20000) (Split.build Split.half (pos 20000)) ≡ false)
is_refused-build_example = is_refused-build Split.half (pos 20000)

abbrev events : List Split.Event
events =
    Split.clicked_preset Split.half ∷ Split.clicked_custom ∷ Split.loaded (some (pos 20000)) ∷ []

events_preset : (run events).custom_mode ≡ false
unfolding run Split.step Split.sync Split.build
events_preset = refl

split_invalid-run_example : Split.split_invalid (run events) ≡ false
split_invalid-run_example = split_invalid-run events events_preset

abbrev ana_link : String
ana_link = "https://indica.ai/r/1a&b"

abbrev ana : PartnerMe String
ana = record {
  partner_id = "p";
  name = "Ana";
  email = none;
  phone_e164 = none;
  status = "active";
  program_id = "g";
  program_name = "Indique";
  program_rules = record {
    schema_version = none;
    trigger = none;
    attribution_window_days = none;
    reward = none;
    payout = none;
    limits = none;
  };
  link_url = some ana_link;
  clicks = 0;
  referrals = 0;
  pending_rewards_cents = 0;
  approved_rewards_cents = 0;
  paid_rewards_cents = 0;
  created_at = "2026-05-12";
}

link_not_empty : ana_link ≢ ""
link_not_empty e = let f = (eq_iff ana_link "").1 e in cc

whatsapp_share-message_example :
    (q : Text) × (whatsapp_share ana ≡ some (share_prefix ++ q))
    × (decode_uri q ≡ some (message_text (codes ana_link)))
    × All IsInner q
whatsapp_share-message_example =
    whatsapp_share-message ana ana_link refl link_not_empty (IsScalar-ascii (codes ana_link) refl)
