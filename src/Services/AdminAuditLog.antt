-- ===== src/Services/AdminAuditLog.antt =====
-- portal/src/services/admin.ts: adminService.auditLog.
use mutell_demo.Prelude.{Option}
use mutell_demo.Http.{Endpoint, Method, empty, data_of, params_of}
use mutell_demo.Types.Query.{AuditLogParams, audit_log_params_object}

unfoldable pub list : (params : Option AuditLogParams) → Endpoint
list params = record {
  method = Method.get;
  path = "/admin/audit-log";
  params = params_of audit_log_params_object params;
  body = empty;
  unwrap = data_of;
}
