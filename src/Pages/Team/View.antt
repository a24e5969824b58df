-- ===== src/Pages/Team/View.antt =====
-- What portal/src/app/(app)/team/page.tsx shows.
use mutell_demo.Prelude.{
  ℕ, String, Bool, true, false, Option, none, some, List, [], ◌∷◌, ◌++◌, is_truthy, is_empty,
  if◌then◌else◌, str_eq,
}
use mutell_demo.Types.{role_text}
use mutell_demo.Types.Auth.{
  UserResponse, PermissionSchemaItem, PermissionsSchemaResponse, PermissionsResponse,
}
use mutell_demo.Format.{Locale, format_relative_time}
use mutell_demo.Screen.Badges.{role_color, first_spaced}
use mutell_demo.Screen.{
  Part, heading, text, badge, button, menu, input, checkbox, select, modal, counted, bones,
  empty_state, listing, status_part, pager_part, confirm_dialog, has_target,
}
use mutell_demo.Pages.Team.{TeamPage, state_of}

abbrev pub per_page : ℕ
per_page = 20

-- `roleOptions`
abbrev pub role_options : List (String × String)
role_options = ("viewer", "Viewer") ∷ ("manager", "Manager") ∷ ("tenant_admin", "Admin") ∷ []

pub record UserListResponse : Type 0 where
  pub items : List UserResponse
  pub total : ℕ

pub data Click : Type 0 where
  open_invite close_invite invite close_edit update : Click
  close_permissions save_permissions close_delete confirm_delete : Click
  edit : UserResponse → Click
  permissions ask_suspend : String → Click

pub data Field : Type 0 where
  invite_name invite_email invite_role edit_name email edit_role concurrency : Field
  granted : String → Field

unfoldable pub invite_dialog : Bool → TeamPage → List (Part Click Field)
unfolding modal
invite_dialog busy p = modal p.invite_open close_invite (
    heading "Invite Team Member"
    ∷ input "Full Name" invite_name p.invite_name false
    ∷ input "Email" invite_email p.invite_email false
    ∷ select "Role" invite_role role_options (role_text p.invite_role)
    ∷ button (if busy then "Inviting..." else "Send Invite") busy invite
    ∷ button "Cancel" false close_invite
    ∷ [])

abbrev email_of : Option UserResponse → String
email_of none = ""
email_of (some user) = user.email

unfoldable pub edit_dialog : Bool → TeamPage → List (Part Click Field)
unfolding modal
edit_dialog busy p = modal p.edit_open close_edit (
    heading "Edit Team Member"
    ∷ input "Full Name" edit_name p.edit_name false
    ∷ input "Email" email (email_of p.editing_user) true
    ∷ select "Role" edit_role role_options (role_text p.edit_role)
    ∷ input "Max Concurrent Evaluations" concurrency p.edit_concurrency false
    ∷ text "Max background evaluation processes this user can run simultaneously."
    ∷ button (if busy then "Saving..." else "Save") busy update
    ∷ button "Cancel" false close_edit
    ∷ [])

-- `DEFAULT_PERMISSION_KEYS` with their labels, and `permissionKeys`.
abbrev pub default_labels : List (String × String)
default_labels =
    ("export_reports", "Export Reports")
    ∷ ("view_analytics", "View Analytics")
    ∷ ("manage_terminals", "Manage Terminals")
    ∷ ("manage_users", "Manage Users")
    ∷ ("create_notes", "Create Notes")
    ∷ ("generate_reports", "Generate Reports")
    ∷ []

abbrev labels_of : List PermissionSchemaItem → List (String × String)
labels_of [] = []
labels_of (i ∷ is) = (i.key, i.label) ∷ labels_of is

unfoldable pub permission_labels : Option PermissionsSchemaResponse → List (String × String)
permission_labels none = default_labels
permission_labels (some schema) =
    if is_empty schema.permissions then default_labels else labels_of schema.permissions

-- The switches, each with the value that it starts from: `Switch` keeps a value of its own.
unfoldable pub switches : TeamPage → List (String × String) → List (Part Click Field)
switches p [] = []
switches p (k ∷ ks) = checkbox k.1 (granted k.0) (state_of p k.0) ∷ switches p ks

unfoldable pub permissions_dialog :
    Option PermissionsSchemaResponse
    → Option PermissionsResponse
    → Bool
    → TeamPage
    → List (Part Click Field)
unfolding modal permission_labels switches
permissions_dialog schema fetched busy p = modal p.permissions_open close_permissions (
    heading "Edit Permissions"
    ∷ (elim fetched as (λ x. List (Part Click Field)) [
      | none ↦ bones 3
      | some loaded ↦ switches p (permission_labels schema)
    ]
        ++ button (if busy then "Saving..." else "Save Permissions") busy save_permissions
          ∷ button "Cancel" false close_permissions
          ∷ []))

-- The line of a member, without the initial in front of the name.
unfoldable pub member_row : Locale → UserResponse → List (Part Click Field)
unfolding role_color first_spaced format_relative_time
member_row l member =
    text member.full_name
    ∷ text member.email
    ∷ badge (role_color (role_text member.role)) (first_spaced (role_text member.role))
    ∷ status_part member.status
    ∷ text (elim member.last_login_at as (λ x. String) [
      | none ↦ "Never"
      | some at ↦ if is_truthy at then format_relative_time l at else "Never"
    ])
    ∷ menu (
        record { label = "Edit"; danger = false; action = edit member }
        ∷ record { label = "Permissions"; danger = false; action = permissions member.id }
        ∷ (if str_eq member.status "active"
            then record { label = "Suspend"; danger = true; action = ask_suspend member.id } ∷ []
            else []))
    ∷ []

-- Which requests of the page are under way.
pub record Busy : Type 0 where
  pub inviting : Bool
  pub updating : Bool
  pub saving : Bool
  pub suspending : Bool

unfoldable pub team_view :
    Locale
    → Bool
    → Option UserListResponse
    → Option PermissionsSchemaResponse
    → Option PermissionsResponse
    → Busy
    → ℕ
    → TeamPage
    → List (Part Click Field)
unfolding invite_dialog edit_dialog permissions_dialog listing member_row counted confirm_dialog
team_view l is_loading response schema fetched busy page p =
    let items = elim response as (λ x. Option (List UserResponse)) [
      | none ↦ none
      | some r ↦ some r.items
    ] in
    let total = elim response as (λ x. Option ℕ) [ none ↦ none | some r ↦ some r.total ] in
    heading "Team"
    ∷ button "Invite Member" false open_invite
    ∷ (invite_dialog busy.inviting p
        ++ (edit_dialog busy.updating p
            ++ (permissions_dialog schema fetched busy.saving p
                ++ heading (counted "Team Members" total)
                  ∷ (listing is_loading items 3
                        (empty_state "No team members"
                          "Invite your first team member to get started.")
                        ("Name" ∷ "Email" ∷ "Role" ∷ "Status" ∷ "Last Login" ∷ "Actions" ∷ [])
                        (λ (member : UserResponse). member.id) (member_row l)
                      ++ (pager_part per_page total page
                          ++ confirm_dialog (has_target p.delete_target) "Suspend User"
                              "Are you sure you want to suspend this user? They will lose access to the platform."
                              "Suspend" busy.suspending close_delete confirm_delete)))))
