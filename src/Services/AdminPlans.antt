-- ===== src/Services/AdminPlans.antt =====
-- portal/src/services/admin.ts: adminService.plans.
use mutell_demo.Prelude.{String, Option, [], ◌+++◌}
use mutell_demo.Http.{Endpoint, Method, empty, object, data_of, params_of}
use mutell_demo.Types.Plan.{
  PlanCreateRequest, PlanUpdateRequest, plan_create_request_object, plan_update_request_object,
}
use mutell_demo.Types.Query.{PageParams, page_params_object}

unfoldable pub list : (params : Option PageParams) → Endpoint
list params = record {
  method = Method.get;
  path = "/admin/plans";
  params = params_of page_params_object params;
  body = empty;
  unwrap = data_of;
}

unfoldable pub create : (request : PlanCreateRequest) → Endpoint
create request = record {
  method = Method.post;
  path = "/admin/plans";
  params = [];
  body = object (plan_create_request_object request);
  unwrap = data_of;
}

unfoldable pub update : (plan_id : String) (request : PlanUpdateRequest) → Endpoint
update plan_id request = record {
  method = Method.patch;
  path = "/admin/plans/" +++ plan_id;
  params = [];
  body = object (plan_update_request_object request);
  unwrap = data_of;
}
