-- ===== src/Public.antt =====
-- The public site, web/apps/public.
pub mod Redirect
pub mod CookieBanner
