-- ===== src/Partner/Referral/Laws.antt =====
-- Lemmas about `handleSubmit` of web/apps/partner/app/(app)/parceiro/indicacoes/nova/page.tsx.
use indica_ai.Prelude.{◌≡◌, ◌↔◌, true, false, arith, all, is_some}
use indica_ai.Js.Strings.{is_space}
use indica_ai.Js.Strings.Laws.{trim-blank}
use indica_ai.Partner.Split.{split_invalid}
use indica_ai.Partner.Referral.{State, handle_submit}

-- `handleSubmit` makes its call exactly when the phone is not blank and the split is not invalid.
pub handle_submit_iff :
    (s : State)
    → (is_some (handle_submit s).call ≡ true)
      ↔ ((all is_space s.phone ≡ false) × (split_invalid s.split ≡ false))
unfolding handle_submit
handle_submit_iff s = rw (trim-blank s.phone) (ground arith)
