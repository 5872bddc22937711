-- ===== src/Dashboard/Indicacoes/Races.antt =====
-- Two sheets of web/apps/dashboard/app/(app)/indicacoes/table.tsx, one after the other, and the answer to the
-- first one's request.
use indica_ai.Prelude.{
  sym, eq_iff, ◌≡◌, ◌≢◌, refl, true, false, Option, none, some, List, [], ◌∷◌, String,
}
use mathlib.Core.List.{Memᴰ}
use indica_ai.Js.Strings.{includes, lower}
use indica_ai.Http.{Result, resolved}
use indica_ai.Dashboard.Api.Types.{Lead, LeadStatus}
use indica_ai.Dashboard.Indicacoes.{Sheet, Save, World, render, mounted, loaded, close, save, saved}
use indica_ai.Dashboard.Indicacoes.View.{filtered}
use indica_ai.Dashboard.Indicacoes.Traces.{
  clicked_row, picked, clicked_save, closed, answered_list, Reach, here, next,
}

abbrev pub lead : String → Lead
lead id = record {
  id = id;
  name = some "Bia";
  phone_e164 = none;
  email = none;
  status = LeadStatus.new;
  source = "manual";
  notes = none;
  closed_at = none;
  created_at = "2026-05-12";
  program_id = "g";
  program_name = "Indique";
  partner_id = none;
  partner_name = none;
  sale_amount_cents = none;
}

abbrev two_leads : Result (List Lead)
two_leads = resolved (some (lead "a" ∷ lead "b" ∷ []))

abbrev pub listed : World
listed = render (record (mounted) { page = loaded two_leads mounted.page; pending = [] })

abbrev opened_row : String → World → World
opened_row id w = render (record w { page = record (w.page) { selected = some (lead id) } })

abbrev first_opened : World
first_opened = opened_row "a" listed

abbrev first_sheet : Sheet
first_sheet = record { number = 0; lead = lead "a"; status = LeadStatus.new; saving = false }

abbrev first_picked : World
first_picked =
    render
      (record (first_opened) { sheet = some (record first_sheet { status = LeadStatus.lost }) })

abbrev picked_sheet : Sheet
picked_sheet = record first_sheet { status = LeadStatus.lost }

abbrev first_saving : World
first_saving = render (save picked_sheet first_picked)

abbrev first_closed : World
first_closed = render (close first_saving)

abbrev second_opened : World
second_opened = opened_row "b" first_closed

abbrev first_save : Save
first_save = record { number = 0; id = "a"; status = LeadStatus.lost }

pub listed-Reach : Reach mounted listed
unfolding mounted
listed-Reach = next here (answered_list [] [] two_leads refl)

second_opened-Reach : Reach mounted second_opened
unfolding mounted loaded render save close filtered includes lower
second_opened-Reach =
    next
      (next
        (next
          (next (next listed-Reach (clicked_row (lead "a") (refl, refl, refl) (Memᴰ.head refl)))
            (picked first_sheet LeadStatus.lost refl))
          (clicked_save picked_sheet refl refl))
        (closed (record picked_sheet { saving = true }) refl))
      (clicked_row (lead "b") (refl, refl, refl) (Memᴰ.tail (Memᴰ.head refl)))

true_is_not_false : true ≡ false → ⊥
true_is_not_false e = cc

no_lead : {l : Lead} → none ≡ some l → ⊥
no_lead e = cc

a_not_b : (lead "a").id ≢ (lead "b").id
a_not_b e = true_is_not_false (sym ((eq_iff "a" "b").1 e))

-- It is not so that on the leads page the answer to the save of one lead always leaves another lead
-- that is selected, and so open in the sheet, selected.
pub saved_closes_other : ¬ (
    (w : World) (l : Lead) (y : Save) (v : Option Lead)
    → Reach mounted w
    → w.page.selected ≡ some l
    → Memᴰ y w.saves
    → y.id ≢ l.id
    → (saved y (resolved v) w).page.selected ≡ some l)
unfolding mounted loaded render save close saved
saved_closes_other all =
    no_lead (
      all second_opened (lead "b") first_save none second_opened-Reach refl (Memᴰ.head refl)
        a_not_b)
