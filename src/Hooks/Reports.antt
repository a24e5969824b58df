-- ===== src/Hooks/Reports.antt =====
-- portal/src/hooks/useReports.ts.
use mutell_demo.Prelude.{String, true, Option, none, [], ◌∷◌}
use mutell_demo.Browser.{success, failure}
use mutell_demo.Types.Query.{PageParams, page_params_object}
use mutell_demo.Types.Report.{ReportCreateRequest, ReportDownloadResponse}
use mutell_demo.Services.Reports
use mutell_demo.Hooks.{text, object_part, Query, Mutation, invalidate, notify, open_window}

unfoldable pub use_report_list : (params : Option PageParams) → Query
use_report_list params = record {
  key = text "reports" ∷ object_part page_params_object params ∷ [];
  endpoint = Reports.list params;
  enabled = true;
  refetch_interval = none;
}

unfoldable pub use_create_report : (request : ReportCreateRequest) → Mutation (Unit {0})
use_create_report request = record {
  endpoint = Reports.create request;
  on_success =
      λ reply. invalidate (text "reports" ∷ []) ∷ notify (success "Report generation started") ∷ [];
  on_error = λ e. notify (failure "Failed to generate report") ∷ [];
}

unfoldable pub use_download_report : (report_id : String) → Mutation ReportDownloadResponse
use_download_report report_id = record {
  endpoint = Reports.download report_id;
  on_success = λ reply. open_window reply.download_url ∷ [];
  on_error = λ e. notify (failure "Report not ready for download") ∷ [];
}

unfoldable pub use_delete_report : (id : String) → Mutation (Unit {0})
use_delete_report id = record {
  endpoint = Reports.delete id;
  on_success = λ reply. invalidate (text "reports" ∷ []) ∷ notify (success "Report deleted") ∷ [];
  on_error = λ e. notify (failure "Failed to delete report") ∷ [];
}
