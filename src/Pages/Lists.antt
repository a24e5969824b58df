-- ===== src/Pages/Lists.antt =====
-- The pages with a list: portal/src/app/(app)/team/page.tsx, terminals, reports, settings/ai,
-- admin/plans, admin/tenants, admin/users and admin/audit-log. What they have in common.
pub mod Admin
pub mod Tenant
pub mod Work
pub mod Slots
pub mod Shown
mod Tests
