-- ===== src/Pages/Settings.antt =====
-- The settings of a tenant and of its users under portal/src/app/(app)/settings.
pub mod Notifications
pub mod Ai
