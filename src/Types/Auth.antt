-- ===== src/Types/Auth.antt =====
-- portal/src/types/auth.ts: accounts, permissions and the sign-in requests.
-- A field that may be missing or null is an `Option`.
use mutell_demo.Prelude.{ℕ, String, Bool, Option, List, ◌++◌}
use mutell_demo.Http.{Object, str, num, bool, always, maybe}
use mutell_demo.Types.{UserRole, role_text}

pub record UserResponse : Type 0 where
  pub id : String
  pub tenant_id : String
  pub email : String
  pub full_name : String
  pub avatar_url : Option String
  pub role : UserRole
  pub status : String
  pub last_login_at : Option String
  pub created_at : String
  pub max_concurrent_evaluations : ℕ

pub record InviteUserRequest : Type 0 where
  pub email : String
  pub full_name : String
  pub role : UserRole

-- The object that is sent.
unfoldable pub invite_user_request_object : InviteUserRequest → Object
invite_user_request_object r =
    always "email" str r.email
    ++ (always "full_name" str r.full_name ++ (always "role" (λ v. str (role_text v)) r.role))

pub record UpdateUserRequest : Type 0 where
  pub full_name : Option String
  pub role : Option UserRole
  pub status : Option String
  pub max_concurrent_evaluations : Option ℕ

-- The object that is sent.
unfoldable pub update_user_request_object : UpdateUserRequest → Object
update_user_request_object r =
    maybe "full_name" str r.full_name
    ++ (maybe "role" (λ v. str (role_text v)) r.role
        ++ (maybe "status" str r.status
            ++ (maybe "max_concurrent_evaluations" num r.max_concurrent_evaluations)))

pub record Permission : Type 0 where
  pub permission : String
  pub granted : Bool

-- The object that is sent.
unfoldable pub permission_object : Permission → Object
permission_object r = always "permission" str r.permission ++ (always "granted" bool r.granted)

pub record PermissionSchemaItem : Type 0 where
  pub key : String
  pub label : String
  pub description : String

pub record PermissionsSchemaResponse : Type 0 where
  pub permissions : List PermissionSchemaItem

pub record PermissionsResponse : Type 0 where
  pub user_id : String
  pub permissions : List Permission

pub record ChangePasswordRequest : Type 0 where
  pub current_password : String
  pub new_password : String

-- The object that is sent.
unfoldable pub change_password_request_object : ChangePasswordRequest → Object
change_password_request_object r =
    always "current_password" str r.current_password ++ (always "new_password" str r.new_password)

pub record RegisterRequest : Type 0 where
  pub email : String
  pub full_name : String
  pub password : String
  pub tenant_slug : Option String

-- The object that is sent.
unfoldable pub register_request_object : RegisterRequest → Object
register_request_object r =
    always "email" str r.email
    ++ (always "full_name" str r.full_name
        ++ (always "password" str r.password ++ (maybe "tenant_slug" str r.tenant_slug)))

pub record GoogleAuthRequest : Type 0 where
  pub id_token : String

-- The object that is sent.
unfoldable pub google_auth_request_object : GoogleAuthRequest → Object
google_auth_request_object r = always "id_token" str r.id_token
