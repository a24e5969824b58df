-- ===== src/Pages/Admin/Users.antt =====
-- All users and their limits, portal/src/app/(app)/admin/users/page.tsx.
pub mod Limits
pub mod Tests
use mutell_demo.Prelude.{
  ℕ, String, Bool, true, false, ◌||◌, Option, none, some, List, [], ◌∷◌, ◌++◌, is_truthy,
  if◌then◌else◌, decimal, parse_int, ltb, ◌+++◌,
}
use mutell_demo.Types.{UserRole, role_text}
use mutell_demo.Types.Auth.{UserResponse, UpdateUserRequest}
use mutell_demo.Format.{Locale, format_relative_time}
use mutell_demo.Screen.Badges.{role_color, first_spaced}
use mutell_demo.Screen.{
  Part, heading, text, badge, button, menu, input, Item, modal, counted, empty_state, listing,
  status_part, pager_part,
}

pub record AdminUsersResponse : Type 0 where
  pub items : List UserResponse
  pub total : ℕ

-- The state of `AdminUsersPage`.
pub record AdminUsersPage : Type 0 where
  pub page : ℕ
  pub edit_open : Bool
  pub editing_user : Option UserResponse
  pub edit_concurrency : String

abbrev pub per_page : ℕ
per_page = 20

unfoldable pub open_edit : UserResponse → AdminUsersPage → AdminUsersPage
unfolding decimal
open_edit user p = record p {
  editing_user = some user;
  edit_concurrency = decimal user.max_concurrent_evaluations;
  edit_open = true;
}

-- `handleUpdate`: nothing is sent where the text is no number, or one below 1.
unfoldable pub update_start : AdminUsersPage → Option (String × UpdateUserRequest)
unfolding parse_int
update_start p = elim p.editing_user as (λ x. Option (String × UpdateUserRequest)) [
  | none ↦ none
  | some user ↦ elim (parse_int p.edit_concurrency) as (λ x. Option (String × UpdateUserRequest)) [
    | none ↦ none
    | some val ↦
        if val.0 || ltb val.1 1
        then none
        else some (
          user.id,
          record {
            full_name = none;
            role = none;
            status = none;
            max_concurrent_evaluations = some val.1;
          },
        )
  ]
]

unfoldable pub update_finish : AdminUsersPage → AdminUsersPage
update_finish p = record p { edit_open = false }

pub data Click : Type 0 where
  close_edit update : Click
  edit : UserResponse → Click

pub data Field : Type 0 where
  email role concurrency : Field

abbrev of_user : (UserResponse → String) → Option UserResponse → String
of_user f none = ""
of_user f (some user) = f user

unfoldable pub edit_dialog : Bool → AdminUsersPage → List (Part Click Field)
unfolding modal first_spaced
edit_dialog busy p = modal p.edit_open close_edit (
    heading ("Edit User — " +++ of_user (λ u. u.full_name) p.editing_user)
    ∷ input "Email" email (of_user (λ u. u.email) p.editing_user) true
    ∷ input "Role" role (of_user (λ u. first_spaced (role_text u.role)) p.editing_user) true
    ∷ input "Max Concurrent Evaluations" concurrency p.edit_concurrency false
    ∷ text "Maximum number of background evaluation processes this user can run simultaneously."
    ∷ button (if busy then "Saving..." else "Save") busy update
    ∷ button "Cancel" false close_edit
    ∷ [])

-- The line of a user, without the initial in front of the name.
unfoldable pub user_row : Locale → UserResponse → List (Part Click Field)
unfolding role_color first_spaced decimal format_relative_time
user_row l user =
    text user.full_name
    ∷ text user.email
    ∷ badge (role_color (role_text user.role)) (first_spaced (role_text user.role))
    ∷ status_part user.status
    ∷ text (decimal user.max_concurrent_evaluations)
    ∷ text (elim user.last_login_at as (λ x. String) [
      | none ↦ "Never"
      | some at ↦ if is_truthy at then format_relative_time l at else "Never"
    ])
    ∷ menu (record { label = "Edit"; danger = false; action = edit user } ∷ [])
    ∷ []

unfoldable pub users_view :
    Locale → Bool → Option AdminUsersResponse → Bool → AdminUsersPage → List (Part Click Field)
unfolding edit_dialog listing user_row counted
users_view l is_loading response updating p =
    let items = elim response as (λ x. Option (List UserResponse)) [
      | none ↦ none
      | some r ↦ some r.items
    ] in
    let total = elim response as (λ x. Option ℕ) [ none ↦ none | some r ↦ some r.total ] in
    heading "Users"
    ∷ (edit_dialog updating p
        ++ heading (counted "All Users" total)
          ∷ (listing is_loading items 3 (empty_state "No users" "No users found.")
                ("Name" ∷ "Email" ∷ "Role" ∷ "Status" ∷ "Concurrent Limit" ∷ "Last Login"
                  ∷ "Actions" ∷ [])
                (λ (user : UserResponse). user.id) (user_row l)
              ++ pager_part per_page total p.page))
