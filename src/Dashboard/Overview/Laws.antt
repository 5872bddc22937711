-- ===== src/Dashboard/Overview/Laws.antt =====
-- The overview of web/apps/dashboard/app/(app)/dashboard/page.tsx beside the leads page.
use indica_ai.Prelude.{◌≡◌, ◌≢◌, ◌↔◌, ◌⊎◌, inl, inr, refl, false, String, str_eq, eq_iff}
use indica_ai.Dashboard.Api.Types.{LeadStatus}
use indica_ai.Dashboard.Api.Endpoints.{lead_status}
use indica_ai.Dashboard.Indicacoes.View.{badge_label}
use indica_ai.Dashboard.Overview.{status_label}

different : (a b : String) → str_eq a b ≡ false → a ≢ b
different a b h e = let f = (eq_iff a b).1 e in cc

either_differs :
    {s : LeadStatus}
    → s ≢ LeadStatus.new
    → s ≢ LeadStatus.closed
    → (s ≡ LeadStatus.new) ⊎ (s ≡ LeadStatus.closed)
    → ⊥
either_differs n c (inl e) = n e
either_differs n c (inr e) = c e

-- The overview and the leads page have the same label for a lead exactly when it is new or closed.
pub status_label-badge_label :
    (s : LeadStatus)
    → (status_label (lead_status s) ≡ badge_label s)
      ↔ ((s ≡ LeadStatus.new) ⊎ (s ≡ LeadStatus.closed))
unfolding status_label
status_label-badge_label LeadStatus.new = (λ h. inl refl, λ h. refl)
status_label-badge_label LeadStatus.closed = (λ h. inr refl, λ h. refl)
status_label-badge_label LeadStatus.in_progress = (
  λ h. absurd (different "Novo" "Em atendimento" refl h),
  λ h. absurd (either_differs (λ e. cc) (λ e. cc) h),
)
status_label-badge_label LeadStatus.qualified = (
  λ h. absurd (different "Novo" "Qualificado" refl h),
  λ h. absurd (either_differs (λ e. cc) (λ e. cc) h),
)
status_label-badge_label LeadStatus.lost = (
  λ h. absurd (different "Perdido" "Não fechou" refl h),
  λ h. absurd (either_differs (λ e. cc) (λ e. cc) h),
)
