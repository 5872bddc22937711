-- ===== src/Tests/Parceiros.antt =====
-- The partners page with two partners, and its form with one program.
use indica_ai.Prelude.{◌≡◌, ◌≢◌, refl, is_some, true, false, none, some, List, [], ◌∷◌, String}
use mathlib.Core.List.{Memᴰ}
use indica_ai.Http.{Result, resolved}
use indica_ai.Dashboard.Api.Types.{Program, ProgramStatus, Partner, PartnerStatus}
use indica_ai.Dashboard.Api.Endpoints.{partners_create}
use indica_ai.Dashboard.Parceiros.Convidar.{
  Page, opened_page, show_convidar, close, created, Input, mounted, listed, change, build_request,
  handle_submit,
}
use indica_ai.Dashboard.Parceiros.Convidar.Traces.{
  World, start, Reach, here, next, answered, named, Reach-program,
}

abbrev partner : String → Partner
partner program = record {
  id = "p";
  name = "Ana";
  email = none;
  phone_e164 = none;
  status = PartnerStatus.active;
  program_id = "g";
  program_name = program;
  link_slug = none;
  link_url = none;
  referrals = 0;
  clicks = 0;
  commission_cents = 0;
  created_at = "2026-05-12";
}

abbrev partners : List Partner
partners = partner "Indique" ∷ partner "Clube" ∷ partner "Indique" ∷ []

abbrev program : Program String
program = record {
  id = "g";
  tenant_id = "t";
  name = "Indique";
  description = none;
  status = ProgramStatus.active;
  rules = "";
  redirect_type = "whatsapp";
  redirect_url = none;
  whatsapp_number = none;
  settings = "";
  created_at = "2026-05-12";
}

abbrev programs : Result (List (Program String))
programs = resolved (some (program ∷ []))

abbrev filled : World String
filled = record {
  form = change (Input.nome "Bia") (listed programs (start {J = String}).form);
  listing = false;
}

filled-Reach : Reach start filled
unfolding start
filled-Reach = next (next here (answered programs refl)) (named "Bia")

filled_sent : (handle_submit filled.form).call ≡ some (partners_create (build_request filled.form))
unfolding handle_submit change listed start mounted build_request
filled_sent = refl

Reach-program_example :
    (filled.form.nome ≢ "")
    × (partners_create (build_request filled.form) ≡ partners_create (build_request filled.form))
    × ((p : Program String) × Memᴰ p filled.form.programs
        × (p.id ≡ (build_request filled.form).program_id))
Reach-program_example = Reach-program filled-Reach filled_sent

-- The form is sent, closed and opened again; the answer to the first closes the second.
abbrev reopened : Page String
reopened = show_convidar (close (show_convidar opened_page))

second_open : is_some reopened.sheet ≡ true
unfolding show_convidar close opened_page
second_open = refl

second_closed : (created 0 "Bia" (resolved (some (partner "Indique"))) reopened).0.sheet ≡ none
unfolding created close
second_closed = refl
