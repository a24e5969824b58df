-- ===== src/Pages/Admin.antt =====
-- The pages of the administrators under portal/src/app/(app)/admin.
pub mod Plans
pub mod Providers
pub mod AuditLog
pub mod Users
pub mod TenantDetail
pub mod Health
