-- ===== src/Tracking.antt =====
-- The tracking widget, web/packages/tracking/src/widget.ts.
pub mod Cookies
pub mod Visitor
pub mod Widget
