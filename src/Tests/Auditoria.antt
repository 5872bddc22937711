-- ===== src/Tests/Auditoria.antt =====
-- The audit page while its answers come, and the score of two signals.
use indica_ai.Prelude.{◌≡◌, ◌↔◌, refl, none, some, List, [], ◌∷◌}
use indica_ai.Http.{resolved, rejected, api_error}
use indica_ai.Dashboard.Api.Types.{FraudSignal}
use indica_ai.Dashboard.Auditoria.{
  World, Arrival, entries_came, fraud_came, mounted, answer, set_tab, Tab,
}
use indica_ai.Dashboard.Auditoria.View.{BadgeVariant, error_tone, warning_tone, score_tone}
use indica_ai.Dashboard.Auditoria.Traces.{
  Keeps, Reach, here, next, answered, clicked_tab, Reach-Keeps,
}
use indica_ai.Dashboard.Auditoria.Scores.{
  server_score, server_action, badge, score_tone-server_score,
}

abbrev entries : Arrival
entries = entries_came (resolved (some []))

abbrev rejection : Arrival
rejection = fraud_came (rejected (api_error "forbidden" 403))

-- The entries came, the tab was changed, the evaluations were refused.
abbrev failed : World
failed =
    let w = answer entries mounted in
    answer rejection (record w { page = set_tab Tab.fraud_tab w.page })

failed-Reach : Reach mounted failed
failed-Reach =
    next (next (next here (answered entries)) (clicked_tab Tab.fraud_tab)) (answered rejection)

Reach-Keeps_example : Keeps failed.joined failed.page
Reach-Keeps_example = Reach-Keeps failed-Reach

abbrev signals : List FraudSignal
signals =
    record { name = "ip_ua_dup"; points = 40; evidence = none }
    ∷ record { name = "improbable_hours"; points = 10; evidence = none }
    ∷ []

score_tone-server_score_example :
    let n = server_score signals in
    ((score_tone n ≡ error_tone) ↔ (badge (server_action n) ≡ BadgeVariant.destructive))
    × ((score_tone n ≡ warning_tone) ↔ (badge (server_action n) ≡ BadgeVariant.warning))
score_tone-server_score_example = score_tone-server_score signals

-- Fifty points are a warning.
fifty : score_tone (server_score signals) ≡ warning_tone
unfolding score_tone server_score
fifty = refl
