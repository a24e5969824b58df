-- ===== src/Services/AdminUsers.antt =====
-- portal/src/services/admin.ts: adminService.users.
use mutell_demo.Prelude.{String, Option, [], ◌+++◌}
use mutell_demo.Http.{Endpoint, Method, empty, object, data_of, params_of}
use mutell_demo.Types.Auth.{UpdateUserRequest, update_user_request_object}
use mutell_demo.Types.Query.{PageParams, page_params_object}

unfoldable pub list : (params : Option PageParams) → Endpoint
list params = record {
  method = Method.get;
  path = "/admin/users";
  params = params_of page_params_object params;
  body = empty;
  unwrap = data_of;
}

unfoldable pub update : (user_id : String) (request : UpdateUserRequest) → Endpoint
update user_id request = record {
  method = Method.patch;
  path = "/admin/users/" +++ user_id;
  params = [];
  body = object (update_user_request_object request);
  unwrap = data_of;
}
