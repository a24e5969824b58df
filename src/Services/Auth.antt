-- ===== src/Services/Auth.antt =====
-- portal/src/services/auth.ts: authService.
use mutell_demo.Prelude.{String, [], ◌∷◌}
use mutell_demo.Http.{Endpoint, Method, str, empty, object, data_of}
use mutell_demo.Types.Auth.{
  ChangePasswordRequest, RegisterRequest, change_password_request_object, register_request_object,
}

unfoldable pub login : (email : String) (password : String) → Endpoint
login email password = record {
  method = Method.post;
  path = "/auth/login";
  params = [];
  body = object (("email", str email) ∷ ("password", str password) ∷ []);
  unwrap = data_of;
}

unfoldable pub refresh : (refresh_token : String) → Endpoint
refresh refresh_token = record {
  method = Method.post;
  path = "/auth/refresh";
  params = [];
  body = object (("refresh_token", str refresh_token) ∷ []);
  unwrap = data_of;
}

unfoldable pub logout : Endpoint
logout = record {
  method = Method.post;
  path = "/auth/logout";
  params = [];
  body = empty;
  unwrap = data_of;
}

unfoldable pub me : Endpoint
me = record { method = Method.get; path = "/auth/me"; params = []; body = empty; unwrap = data_of }

unfoldable pub forgot_password : (email : String) → Endpoint
forgot_password email = record {
  method = Method.post;
  path = "/auth/forgot-password";
  params = [];
  body = object (("email", str email) ∷ []);
  unwrap = data_of;
}

unfoldable pub reset_password : (token : String) (new_password : String) → Endpoint
reset_password token new_password = record {
  method = Method.post;
  path = "/auth/reset-password";
  params = [];
  body = object (("token", str token) ∷ ("new_password", str new_password) ∷ []);
  unwrap = data_of;
}

unfoldable pub accept_invite : (token : String) (full_name : String) (password : String) → Endpoint
accept_invite token full_name password = record {
  method = Method.post;
  path = "/auth/accept-invite";
  params = [];
  body =
      object
        (("token", str token) ∷ ("full_name", str full_name) ∷ ("password", str password) ∷ []);
  unwrap = data_of;
}

unfoldable pub change_password : (request : ChangePasswordRequest) → Endpoint
change_password request = record {
  method = Method.post;
  path = "/auth/change-password";
  params = [];
  body = object (change_password_request_object request);
  unwrap = data_of;
}

unfoldable pub register : (request : RegisterRequest) → Endpoint
register request = record {
  method = Method.post;
  path = "/auth/register";
  params = [];
  body = object (register_request_object request);
  unwrap = data_of;
}

unfoldable pub google_auth : (id_token : String) → Endpoint
google_auth id_token = record {
  method = Method.post;
  path = "/auth/google";
  params = [];
  body = object (("id_token", str id_token) ∷ []);
  unwrap = data_of;
}
