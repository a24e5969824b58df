-- ===== src/Hooks/Users.antt =====
-- portal/src/hooks/useUsers.ts.
use mutell_demo.Prelude.{String, true, Option, none, List, [], ◌∷◌}
use mutell_demo.Browser.{success, failure, in_template, has_token}
use mutell_demo.Types.Auth.{InviteUserRequest, Permission, UpdateUserRequest}
use mutell_demo.Types.Query.{PageParams, page_params_object}
use mutell_demo.Services.Users
use mutell_demo.Hooks.{
  text, object_part, text_part, Query, Mutation, invalidate, notify, get_error_message,
}

unfoldable pub use_user_list : (params : Option PageParams) → Query
use_user_list params = record {
  key = text "users" ∷ object_part page_params_object params ∷ [];
  endpoint = Users.list params;
  enabled = true;
  refetch_interval = none;
}

unfoldable pub use_invite_user : (request : InviteUserRequest) → Mutation (Unit {0})
use_invite_user request = record {
  endpoint = Users.invite request;
  on_success = λ reply. invalidate (text "users" ∷ []) ∷ notify (success "Invitation sent") ∷ [];
  on_error = λ e. notify (failure (get_error_message e)) ∷ [];
}

unfoldable pub use_update_user : (id : String) (request : UpdateUserRequest) → Mutation (Unit {0})
use_update_user id request = record {
  endpoint = Users.update id request;
  on_success = λ reply. invalidate (text "users" ∷ []) ∷ notify (success "User updated") ∷ [];
  on_error = λ e. notify (failure (get_error_message e)) ∷ [];
}

unfoldable pub use_delete_user : (id : String) → Mutation (Unit {0})
use_delete_user id = record {
  endpoint = Users.delete id;
  on_success = λ reply. invalidate (text "users" ∷ []) ∷ notify (success "User suspended") ∷ [];
  on_error = λ e. notify (failure (get_error_message e)) ∷ [];
}

unfoldable pub use_set_permissions :
    (user_id : String) (permissions : List Permission) → Mutation (Unit {0})
use_set_permissions user_id permissions = record {
  endpoint = Users.set_permissions user_id permissions;
  on_success =
      λ reply. invalidate (text "users" ∷ []) ∷ notify (success "Permissions updated") ∷ [];
  on_error = λ e. notify (failure "Failed to update permissions") ∷ [];
}

unfoldable pub use_get_permissions : (user_id : Option String) → Query
use_get_permissions user_id = record {
  key = text "user-permissions" ∷ text_part user_id ∷ [];
  endpoint = Users.get_permissions (in_template user_id);
  enabled = has_token user_id;
  refetch_interval = none;
}

unfoldable pub use_permission_schema : Query
use_permission_schema = record {
  key = text "permission-schema" ∷ [];
  endpoint = Users.get_permission_schema;
  enabled = true;
  refetch_interval = none;
}
