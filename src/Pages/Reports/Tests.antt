-- ===== src/Pages/Reports/Tests.antt =====
-- The page of reports for a viewer.
use mutell_demo.Prelude.{Option, none, some, [], ◌∷◌}
use mutell_demo.Session.{User}
use mutell_demo.Types.{ready}
use mutell_demo.Types.Report.{Report}
use mutell_demo.Pages.Reports.{ReportListResponse}

abbrev ann : User
ann = record {
  id = "u1";
  email = "ann@shop.example";
  full_name = "Ann";
  role = "viewer";
  tenant_id = none;
  avatar_url = none;
}

abbrev pub march : Report
march = record {
  id = "r1";
  tenant_id = "t1";
  generated_by = "u2";
  title = "March";
  period_start = "2025-03-01";
  period_end = "2025-03-31";
  terminal_ids = none;
  file_url = none;
  file_size_bytes = none;
  status = ready;
  created_at = "2025-04-01";
}

abbrev pub reports : Option ReportListResponse
reports = some (record { items = march ∷ []; total = 1 })
