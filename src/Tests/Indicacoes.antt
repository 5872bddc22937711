-- ===== src/Tests/Indicacoes.antt =====
-- The leads page with two leads, and after a load that failed.
use indica_ai.Prelude.{◌≡◌, refl, true, false, none, List, []}
use indica_ai.Http.{Result, rejected, api_error}
use indica_ai.Dashboard.Api.Types.{Lead}
use indica_ai.Dashboard.Words.{shows_error}
use indica_ai.Dashboard.Indicacoes.{World, mounted, loaded, render}
use indica_ai.Dashboard.Indicacoes.Traces.{answered_list, Reach, here, next, is_saving, Reach-quiet}
use indica_ai.Dashboard.Indicacoes.Stuck.{Reach-stuck}
use indica_ai.Dashboard.Indicacoes.Races.{listed, listed-Reach}

listed_pending : listed.pending ≡ []
unfolding mounted render loaded
listed_pending = refl

listed_saves : listed.saves ≡ []
unfolding mounted render loaded
listed_saves = refl

Reach-quiet_example :
    (listed.page.updating_id ≡ none)
    × (listed.page.loading ≡ false)
    × (is_saving listed.sheet ≡ false)
Reach-quiet_example = Reach-quiet listed-Reach listed_pending listed_saves

abbrev refusal : Result (List Lead)
refusal = rejected (api_error "internal server error" 500)

abbrev failed : World
failed = render (record (mounted) { page = loaded refusal mounted.page; pending = [] })

failed-Reach : Reach mounted failed
unfolding mounted
failed-Reach = next here (answered_list [] [] refusal refl)

failed_error : shows_error failed.page.error ≡ true
unfolding mounted render loaded
failed_error = refl

failed_pending : failed.pending ≡ []
unfolding mounted render loaded
failed_pending = refl

failed_saves : failed.saves ≡ []
unfolding mounted render loaded
failed_saves = refl

Reach-stuck_example : failed ≡ failed
Reach-stuck_example = Reach-stuck failed-Reach failed_error failed_pending failed_saves here
