-- ===== src/Tests/SignIn.antt =====
-- The sign-in pages of the dashboard and of the partner, and the sidebar.
use indica_ai.Prelude.{
  ◌≤◌, ◌≡◌, ◌↔◌, refl, Bool, true, false, ◌&&◌, none, some, [], String, Text, codes, length,
}
use indica_ai.Http.{Outcome, responded, unreadable, parsed}
use indica_ai.Js.Strings.{includes}
use indica_ai.Dashboard.SignIn.{
  Register, State, opened, submit, register_errors, registered, dashboard_page, login_page,
}
use indica_ai.Dashboard.SignIn.Laws.{is_accepted, is_rejected, registered-target, submit-register}
use indica_ai.Dashboard.Sidebar.{entries}
use indica_ai.Dashboard.Sidebar.Laws.{marked, marked-entries}
use indica_ai.Partner.SignIn.{World, mounted, handle_submit, type_email}
use indica_ai.Partner.SignIn.Traces.{Reach, here, next, typed, submitted, Reach-length-pending}

abbrev created : Outcome (Unit {0})
created =
    responded (record {
      status = 201;
      status_text = "Created";
      failure = parsed none;
      payload = parsed none;
    })

abbrev denied : Outcome (Unit {0})
denied = responded (record {
  status = 401;
  status_text = "Unauthorized";
  failure = unreadable "Unexpected end of JSON input";
  payload = parsed none;
})

abbrev loading : State
loading = record (opened) { is_loading = true }

loading_target : loading.target ≡ none
unfolding opened
loading_target = refl

registered-target_example :
    let t = registered created denied loading in
    ((t.target ≡ some dashboard_page) ↔ ((is_accepted created && is_accepted denied) ≡ true))
    × ((t.target ≡ some login_page) ↔ ((is_accepted created && is_rejected denied) ≡ true))
    × ((t.is_loading ≡ false) ↔ (t.target ≡ none))
registered-target_example = registered-target created denied loading loading_target refl

abbrev has_at : Text → Bool
has_at t = includes t (codes "@")

abbrev form : Register
form = record { nome = codes "Ana"; email = codes "ana@ex.com"; senha = codes "segredo1" }

submit-register_example :
    ((submit {B = String} (register_errors has_at form) "body" opened).1 ≡ some "body")
    ↔ ((2 ≤ length form.nome) × (has_at form.email ≡ true) × (8 ≤ length form.senha))
submit-register_example = submit-register {B = String} has_at form "body" opened

abbrev asked : World
asked = handle_submit (type_email "ana@ex.com" mounted)

asked-Reach : Reach "null" mounted asked
unfolding mounted type_email
asked-Reach = next (next here (typed "ana@ex.com" refl)) (submitted refl refl)

Reach-length-pending_example :
    (length asked.pending ≤ 1)
    × (asked.page.is_loading ≡ false → asked.pending ≡ [])
    × (asked.pending ≡ [] → asked.page.went ≡ false → asked.page.is_loading ≡ false)
Reach-length-pending_example = Reach-length-pending "null" asked-Reach

marked-entries_example : marked (entries (codes "/programas/novo")) ≤ 1
marked-entries_example = marked-entries (codes "/programas/novo")
