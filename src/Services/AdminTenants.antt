-- ===== src/Services/AdminTenants.antt =====
-- portal/src/services/admin.ts: adminService.tenants.
use mutell_demo.Prelude.{String, Option, [], ◌+++◌}
use mutell_demo.Http.{Endpoint, Method, empty, object, data_of, params_of}
use mutell_demo.Types.Query.{PageParams, page_params_object}
use mutell_demo.Types.Tenant.{
  TenantCreateRequest, TenantUpdateRequest, tenant_create_request_object,
  tenant_update_request_object,
}

unfoldable pub list : (params : Option PageParams) → Endpoint
list params = record {
  method = Method.get;
  path = "/admin/tenants";
  params = params_of page_params_object params;
  body = empty;
  unwrap = data_of;
}

unfoldable pub get : (tenant_id : String) → Endpoint
get tenant_id = record {
  method = Method.get;
  path = "/admin/tenants/" +++ tenant_id;
  params = [];
  body = empty;
  unwrap = data_of;
}

unfoldable pub create : (request : TenantCreateRequest) → Endpoint
create request = record {
  method = Method.post;
  path = "/admin/tenants";
  params = [];
  body = object (tenant_create_request_object request);
  unwrap = data_of;
}

unfoldable pub update : (tenant_id : String) (request : TenantUpdateRequest) → Endpoint
update tenant_id request = record {
  method = Method.patch;
  path = "/admin/tenants/" +++ tenant_id;
  params = [];
  body = object (tenant_update_request_object request);
  unwrap = data_of;
}

unfoldable pub delete : (tenant_id : String) → Endpoint
delete tenant_id = record {
  method = Method.delete;
  path = "/admin/tenants/" +++ tenant_id;
  params = [];
  body = empty;
  unwrap = data_of;
}
