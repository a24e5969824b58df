-- ===== src/Services/Reports.antt =====
-- portal/src/services/reports.ts: reportService.
use mutell_demo.Prelude.{String, Option, [], ◌+++◌}
use mutell_demo.Http.{Endpoint, Method, empty, object, data_of, params_of}
use mutell_demo.Types.Query.{PageParams, page_params_object}
use mutell_demo.Types.Report.{ReportCreateRequest, report_create_request_object}

unfoldable pub list : (params : Option PageParams) → Endpoint
list params = record {
  method = Method.get;
  path = "/reports";
  params = params_of page_params_object params;
  body = empty;
  unwrap = data_of;
}

unfoldable pub create : (request : ReportCreateRequest) → Endpoint
create request = record {
  method = Method.post;
  path = "/reports";
  params = [];
  body = object (report_create_request_object request);
  unwrap = data_of;
}

unfoldable pub download : (report_id : String) → Endpoint
download report_id = record {
  method = Method.get;
  path = "/reports/" +++ (report_id +++ "/download");
  params = [];
  body = empty;
  unwrap = data_of;
}

unfoldable pub delete : (report_id : String) → Endpoint
delete report_id = record {
  method = Method.delete;
  path = "/reports/" +++ report_id;
  params = [];
  body = empty;
  unwrap = data_of;
}
