-- ===== src/Services.antt =====
-- portal/src/services: what each service asks of the server, one module for each object of functions.
-- Each gives the request that it hands to the client of portal/src/lib/api.ts.
pub mod Auth
pub mod Users
pub mod Slots
pub mod Terminals
pub mod Tenants
pub mod Plans
pub mod Reports
pub mod Notes
pub mod AiSettings
pub mod Analytics
pub mod Aggregations
pub mod Dashboard
pub mod AdminTenants
pub mod AdminPlans
pub mod AdminUsers
pub mod AdminAuditLog
pub mod AdminHealth
pub mod AdminAiProviders
