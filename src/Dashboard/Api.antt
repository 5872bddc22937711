-- ===== src/Dashboard/Api.antt =====
-- The types and calls of web/apps/dashboard/app/lib/api.ts. JSON of no fixed shape is a parameter or
-- its text, and a date is its text.
pub mod Types
pub mod Endpoints
