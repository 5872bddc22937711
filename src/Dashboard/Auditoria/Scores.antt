-- ===== src/Dashboard/Auditoria/Scores.antt =====
-- The scores that web/apps/dashboard/app/(app)/auditoria/page.tsx shows, with those that
-- internal/domain/fraud/engine.go gives and the counts of internal/api/handlers/audit/handler.go.
use indica_ai.Prelude.{
  ℕ, suc, ◌+◌, ◌≡◌, ◌↔◌, refl, Bool, true, false, some, List, [], ◌∷◌, leb, if◌then◌else◌, arith,
  length, select,
}
use indica_ai.Dashboard.Api.Types.{AuditSummary, FraudAction, FraudSignal, FraudEvaluation}
use indica_ai.Dashboard.Auditoria.View.{
  Cards, cards, BadgeVariant, fraud_action_config, fraud_count, error_tone, warning_tone,
  score_tone,
}

-- `Check` of internal/domain/fraud/engine.go, from the signals that fired.
unfoldable pub server_score : List FraudSignal → ℕ
server_score [] = 0
server_score (s ∷ ss) = s.points + server_score ss

unfoldable pub server_action : ℕ → FraudAction
server_action n =
    if leb 61 n then FraudAction.block else if leb 31 n then FraudAction.review else FraudAction.ok

abbrev pub badge : FraudAction → BadgeVariant
badge a = (fraud_action_config a).1

score_tone-action :
    (n : ℕ)
    → ((score_tone n ≡ error_tone) ↔ (badge (server_action n) ≡ BadgeVariant.destructive))
      × ((score_tone n ≡ warning_tone) ↔ (badge (server_action n) ≡ BadgeVariant.warning))
unfolding server_action score_tone
score_tone-action n = ground arith

-- For the score that the server adds up from any signals the audit page colours the score as an
-- error exactly when the badge of the server's action is the destructive one, and as a warning
-- exactly when it is the badge of a warning.
pub score_tone-server_score :
    (ss : List FraudSignal)
    → let n = server_score ss in
      ((score_tone n ≡ error_tone) ↔ (badge (server_action n) ≡ BadgeVariant.destructive))
      × ((score_tone n ≡ warning_tone) ↔ (badge (server_action n) ≡ BadgeVariant.warning))
score_tone-server_score ss = score_tone-action (server_score ss)

-- The evaluations of the last 30 days by action, as `Summary` of the audit handler counts them.
abbrev count_in : FraudAction → AuditSummary → AuditSummary
count_in FraudAction.ok s = record s { fraud_ok = suc s.fraud_ok }
count_in FraudAction.review s = record s { fraud_review = suc s.fraud_review }
count_in FraudAction.block s = record s { fraud_block = suc s.fraud_block }

unfoldable pub count_actions : AuditSummary → List FraudEvaluation → AuditSummary
count_actions s [] = record s { fraud_ok = 0; fraud_review = 0; fraud_block = 0 }
count_actions s (f ∷ fs) = count_in f.action (count_actions s fs)

abbrev pub is_flagged : FraudEvaluation → Bool
is_flagged f = elim f.action [ FraudAction.ok ↦ false | _ ↦ true ]

abbrev sum_of_cards : Cards → ℕ
sum_of_cards c = c.approved + c.in_review + c.blocked

-- With the counts of the server the badge of the second tab counts the flagged evaluations, and the three
-- cards add up to all of them.
pub fraud_count-count_actions :
    (s : AuditSummary) (fs : List FraudEvaluation)
    → let counted = some (count_actions s fs) in
      (fraud_count counted ≡ length (select is_flagged fs))
      × (sum_of_cards (cards counted) ≡ length fs)
unfolding count_actions fraud_count cards
fraud_count-count_actions s [] = (refl, refl)
fraud_count-count_actions s (f ∷ fs) = ground (arith, fraud_count-count_actions s fs)
