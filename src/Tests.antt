-- ===== src/Tests.antt =====
-- The theorems applied to concrete inputs.
pub mod Programs
pub mod Partner
pub mod Saques
pub mod Comissoes
pub mod Toast
pub mod Tracking
pub mod Requests
pub mod Auditoria
pub mod Indicacoes
pub mod Parceiros
pub mod SignIn
