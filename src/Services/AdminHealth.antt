-- ===== src/Services/AdminHealth.antt =====
-- portal/src/services/admin.ts: adminService.health.
use mutell_demo.Prelude.{[]}
use mutell_demo.Http.{Endpoint, Method, empty, data_of}

unfoldable pub get : Endpoint
get = record {
  method = Method.get;
  path = "/admin/health";
  params = [];
  body = empty;
  unwrap = data_of;
}
