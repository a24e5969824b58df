-- ===== src/Services/Users.antt =====
-- portal/src/services/auth.ts: userService.
use mutell_demo.Prelude.{String, Option, List, [], map, ◌+++◌}
use mutell_demo.Http.{Endpoint, Method, empty, object, array, data_of, params_of}
use mutell_demo.Types.Auth.{
  InviteUserRequest, Permission, UpdateUserRequest, invite_user_request_object, permission_object,
  update_user_request_object,
}
use mutell_demo.Types.Query.{PageParams, page_params_object}

unfoldable pub list : (params : Option PageParams) → Endpoint
list params = record {
  method = Method.get;
  path = "/users";
  params = params_of page_params_object params;
  body = empty;
  unwrap = data_of;
}

unfoldable pub invite : (request : InviteUserRequest) → Endpoint
invite request = record {
  method = Method.post;
  path = "/users/invite";
  params = [];
  body = object (invite_user_request_object request);
  unwrap = data_of;
}

unfoldable pub update : (user_id : String) (request : UpdateUserRequest) → Endpoint
update user_id request = record {
  method = Method.patch;
  path = "/users/" +++ user_id;
  params = [];
  body = object (update_user_request_object request);
  unwrap = data_of;
}

unfoldable pub delete : (user_id : String) → Endpoint
delete user_id = record {
  method = Method.delete;
  path = "/users/" +++ user_id;
  params = [];
  body = empty;
  unwrap = data_of;
}

unfoldable pub set_permissions : (user_id : String) (permissions : List Permission) → Endpoint
set_permissions user_id permissions = record {
  method = Method.put;
  path = "/users/" +++ (user_id +++ "/permissions");
  params = [];
  body = array (map permission_object permissions);
  unwrap = data_of;
}

unfoldable pub get_permissions : (user_id : String) → Endpoint
get_permissions user_id = record {
  method = Method.get;
  path = "/users/" +++ (user_id +++ "/permissions");
  params = [];
  body = empty;
  unwrap = data_of;
}

unfoldable pub get_permission_schema : Endpoint
get_permission_schema = record {
  method = Method.get;
  path = "/users/meta/permissions";
  params = [];
  body = empty;
  unwrap = data_of;
}
