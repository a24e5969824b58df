-- ===== src/Types.antt =====
-- portal/src/types/index.ts: the unions of the API, and the text that stands for each member.
pub mod Auth
pub mod Slot
pub mod Report
pub mod Terminal
pub mod Tenant
pub mod Plan
pub mod Ai
pub mod Note
pub mod Query
pub mod Statistics
use mutell_demo.Prelude.{ℕ, String, List, Bool}

pub data UserRole : Type 0 where
  super_admin tenant_admin manager viewer : UserRole

pub data UserStatus : Type 0 where
  active suspended invited : UserStatus

pub data SlotStatus : Type 0 where
  accepted pending processing evaluated unclear failed : SlotStatus

pub data ReportStatus : Type 0 where
  generating ready failed : ReportStatus

pub data TerminalStatus : Type 0 where
  active revoked : TerminalStatus

pub data AggregationPeriod : Type 0 where
  day week month : AggregationPeriod

pub data TenantStatus : Type 0 where
  active deleted : TenantStatus

abbrev pub role_text : UserRole → String
role_text super_admin = "super_admin"
role_text tenant_admin = "tenant_admin"
role_text manager = "manager"
role_text viewer = "viewer"

abbrev pub user_status_text : UserStatus → String
user_status_text UserStatus.active = "active"
user_status_text suspended = "suspended"
user_status_text invited = "invited"

abbrev pub slot_status_text : SlotStatus → String
slot_status_text accepted = "accepted"
slot_status_text pending = "pending"
slot_status_text processing = "processing"
slot_status_text evaluated = "evaluated"
slot_status_text unclear = "unclear"
slot_status_text SlotStatus.failed = "failed"

abbrev pub report_status_text : ReportStatus → String
report_status_text generating = "generating"
report_status_text ready = "ready"
report_status_text ReportStatus.failed = "failed"

abbrev pub terminal_status_text : TerminalStatus → String
terminal_status_text TerminalStatus.active = "active"
terminal_status_text revoked = "revoked"

abbrev pub period_text : AggregationPeriod → String
period_text day = "day"
period_text week = "week"
period_text month = "month"

abbrev pub tenant_status_text : TenantStatus → String
tenant_status_text TenantStatus.active = "active"
tenant_status_text deleted = "deleted"
