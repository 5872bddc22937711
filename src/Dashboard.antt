-- ===== src/Dashboard.antt =====
-- The tenant's dashboard, web/apps/dashboard.
pub mod Api
pub mod Guard
pub mod SignIn
pub mod Tasks
pub mod Saques
pub mod Words
pub mod Overview
pub mod Tenants
pub mod Auditoria
pub mod Comissoes
pub mod Indicacoes
pub mod Parceiros
pub mod Sidebar
