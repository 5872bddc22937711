-- ===== src/Programs.antt =====
-- The form that creates a program: web/packages/ui/src/components/tier-builder.tsx,
-- web/apps/dashboard/app/(app)/programas/novo/page.tsx, and the server's check of what it sends.
-- A number that a user types is an integer count of thousandths.
pub mod Tiers
pub mod Form
pub mod Server
pub mod Listing
pub mod Preview
pub mod Acceptance
