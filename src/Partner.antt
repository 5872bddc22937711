-- ===== src/Partner.antt =====
-- web/apps/partner: the back end's calls and the pages that send data.
pub mod Api
pub mod Phone
pub mod Pix
pub mod Settings
pub mod Split
pub mod SignIn
pub mod Badges
pub mod Home
pub mod Extrato
pub mod Indicacoes
pub mod Verify
pub mod Guard
pub mod Referral
