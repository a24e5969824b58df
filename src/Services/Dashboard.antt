-- ===== src/Services/Dashboard.antt =====
-- portal/src/services/dashboard.ts: dashboardService.
use mutell_demo.Prelude.{[]}
use mutell_demo.Http.{Endpoint, Method, empty, data_of}

unfoldable pub get_stats : Endpoint
get_stats = record {
  method = Method.get;
  path = "/dashboard/stats";
  params = [];
  body = empty;
  unwrap = data_of;
}
