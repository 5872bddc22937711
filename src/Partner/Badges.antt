-- ===== src/Partner/Badges.antt =====
-- The labels that web/apps/partner/app/(app)/parceiro/page.tsx and indicacoes/page.tsx have for the status of
-- a referral.
use indica_ai.Prelude.{String}
use indica_ai.Partner.Api.{LeadStatus}

pub data BadgeVariant : Type 0 where
  success warning default destructive : BadgeVariant

abbrev pub status_label : LeadStatus → String × BadgeVariant
status_label LeadStatus.closed = ("Fechado", BadgeVariant.success)
status_label LeadStatus.in_progress = ("Em atendimento", BadgeVariant.warning)
status_label LeadStatus.qualified = ("Qualificado", BadgeVariant.default)
status_label LeadStatus.new = ("Novo", BadgeVariant.default)
status_label LeadStatus.lost = ("Não fechou", BadgeVariant.destructive)
