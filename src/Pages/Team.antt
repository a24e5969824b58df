-- ===== src/Pages/Team.antt =====
-- The team of a tenant, portal/src/app/(app)/team/page.tsx: invitations, changes, suspensions and
-- permissions. A handler that sends a request is cut at it, as on the sign-in pages; a `finish`
-- is what the page itself does when the request has succeeded.
pub mod Permissions
pub mod Changes
pub mod View
mod Tests
use mutell_demo.Prelude.{
  ℕ, String, Bool, true, false, not, ◌||◌, Option, none, some, List, [], ◌∷◌, map, ltb, str_eq,
  is_empty, coalesce, is_truthy, if◌then◌else◌, lookup, assign, is_blank, decimal, parse_int,
}
use mutell_demo.Types.{UserRole, viewer, manager, tenant_admin, super_admin}
use mutell_demo.Types.Auth.{
  UserResponse, InviteUserRequest, UpdateUserRequest, Permission, PermissionSchemaItem,
  PermissionsSchemaResponse, PermissionsResponse,
}

-- `DEFAULT_PERMISSION_KEYS`, the keys alone.
abbrev pub default_permission_keys : List String
default_permission_keys =
    "export_reports" ∷ "view_analytics" ∷ "manage_terminals" ∷ "manage_users" ∷ "create_notes"
    ∷ "generate_reports" ∷ []

-- The state of `TeamPage`; the roles are those that its selects offer.
pub record TeamPage : Type 0 where
  pub invite_open : Bool
  pub invite_email : String
  pub invite_name : String
  pub invite_role : UserRole
  pub edit_open : Bool
  pub editing_user : Option UserResponse
  pub edit_name : String
  pub edit_role : UserRole
  pub edit_concurrency : String
  pub delete_target : Option String
  pub permissions_open : Bool
  pub permissions_target : Option String
  pub permissions_state : List (String × Bool)

-- `permissionKeys`
unfoldable pub permission_keys : Option PermissionsSchemaResponse → List String
permission_keys none = default_permission_keys
permission_keys (some schema) =
    if is_empty schema.permissions
    then default_permission_keys
    else map (λ (p : PermissionSchemaItem). p.key) schema.permissions

-- `permissions.find((fp) => fp.permission === key)?.granted ?? false`
unfoldable pub granted_of : String → List Permission → Bool
granted_of key [] = false
granted_of key (p ∷ ps) = if str_eq p.permission key then p.granted else granted_of key ps

-- The loop of the effect.
unfoldable pub build_state :
    List String → List Permission → List (String × Bool) → List (String × Bool)
build_state [] fetched state = state
build_state (key ∷ keys) fetched state =
    build_state keys fetched (assign key (granted_of key fetched) state)

-- The effect on the fetched permissions and the target.
unfoldable pub load_permissions : List String → Option PermissionsResponse → TeamPage → TeamPage
unfolding build_state
load_permissions keys none p = p
load_permissions keys (some fetched) p = elim p.permissions_target as (λ x. TeamPage) [
  | none ↦ p
  | some target ↦
      if is_truthy target
      then record p { permissions_state = build_state keys fetched.permissions [] }
      else p
]

unfoldable pub open_permissions : String → TeamPage → TeamPage
open_permissions user_id p = record p { permissions_target = some user_id; permissions_open = true }

-- A switch of the dialog.
unfoldable pub set_permission : String → Bool → TeamPage → TeamPage
set_permission key checked p = record p {
  permissions_state = assign key checked p.permissions_state;
}

-- `permissionsState[key] ?? false`
abbrev pub state_of : TeamPage → String → Bool
state_of p key = coalesce (lookup key p.permissions_state) false

-- `handleSavePermissions`
unfoldable pub save_permissions : List String → TeamPage → Option (String × List Permission)
save_permissions keys p = elim p.permissions_target as (λ x. Option (String × List Permission)) [
  | none ↦ none
  | some target ↦
      if is_truthy target
      then some (
        target,
        map (λ (key : String). record { permission = key; granted = state_of p key }) keys,
      )
      else none
]

-- `handleInvite`
unfoldable pub invite_start : TeamPage → Option InviteUserRequest
invite_start p =
    if is_blank p.invite_email || is_blank p.invite_name
    then none
    else some (record { email = p.invite_email; full_name = p.invite_name; role = p.invite_role })

unfoldable pub invite_finish : TeamPage → TeamPage
invite_finish p = record p {
  invite_open = false;
  invite_email = "";
  invite_name = "";
  invite_role = viewer;
}

unfoldable pub open_edit : UserResponse → TeamPage → TeamPage
open_edit user p = record p {
  editing_user = some user;
  edit_name = user.full_name;
  edit_role = user.role;
  edit_concurrency = decimal user.max_concurrent_evaluations;
  edit_open = true;
}

-- `isNaN(concurrency) || concurrency < 1 ? 1 : concurrency`
unfoldable pub concurrency_of : String → ℕ
concurrency_of typed = elim (parse_int typed) as (λ x. ℕ) [
  | none ↦ 1
  | some n ↦ if n.0 || ltb n.1 1 then 1 else n.1
]

-- `handleUpdate`
unfoldable pub update_start : TeamPage → Option (String × UpdateUserRequest)
unfolding concurrency_of
update_start p = elim p.editing_user as (λ x. Option (String × UpdateUserRequest)) [
  | none ↦ none
  | some user ↦ some (
    user.id,
    record {
      full_name = some p.edit_name;
      role = some p.edit_role;
      status = none;
      max_concurrent_evaluations = some (concurrency_of p.edit_concurrency);
    },
  )
]

-- `handleDelete`; the request names the user.
unfoldable pub suspend_start : TeamPage → Option String
suspend_start p = elim p.delete_target as (λ x. Option String) [
  | none ↦ none
  | some target ↦ if is_truthy target then some target else none
]
