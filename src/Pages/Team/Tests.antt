-- ===== src/Pages/Team/Tests.antt =====
-- portal/src/app/(app)/team/page.tsx for one member.
use mutell_demo.Prelude.{
  ◌&&◌, ℕ, ◌≤◌, ◌≡◌, refl, String, true, false, none, some, List, [], ◌∷◌, str_eq, if◌then◌else◌,
  decimal, parse_int, arith,
}
use mutell_demo.Types.{viewer, manager}
use mutell_demo.Types.Auth.{UserResponse, PermissionsResponse}
use mutell_demo.Pages.Team.{
  TeamPage, granted_of, load_permissions, set_permission, save_permissions, open_edit,
  concurrency_of, update_start,
}
use mutell_demo.Pages.Team.Permissions.{listed, permissions_by, save_permissions-load}
use mutell_demo.Pages.Team.Changes.{update_start-open_edit}

abbrev team : TeamPage
team = record {
  invite_open = false;
  invite_email = "";
  invite_name = "";
  invite_role = viewer;
  edit_open = false;
  editing_user = none;
  edit_name = "";
  edit_role = viewer;
  edit_concurrency = "1";
  delete_target = none;
  permissions_open = true;
  permissions_target = some "u1";
  permissions_state = ("manage_users", true) ∷ [];
}

abbrev bob : UserResponse
bob = record {
  id = "u2";
  tenant_id = "t1";
  email = "bob@shop.example";
  full_name = "Bob";
  avatar_url = none;
  role = manager;
  status = "active";
  last_login_at = none;
  created_at = "2025-01-01";
  max_concurrent_evaluations = 12;
}

abbrev keys : List String
keys = "manage_users" ∷ "create_notes" ∷ []

abbrev fetched : PermissionsResponse
fetched = record {
  user_id = "u1";
  permissions = record { permission = "create_notes"; granted = true } ∷ [];
}

printed :
    (decimal 12 ≡ "12")
    × (concurrency_of " 7 x" ≡ 7)
    × (concurrency_of "-3" ≡ 1)
    × (concurrency_of "x" ≡ 1)
unfolding decimal concurrency_of parse_int
printed = (refl, refl, refl, refl)

-- The schema gets its second key after the permissions have come.
save_permissions-load_example :
    save_permissions keys (
      set_permission "manage_users" true
        (load_permissions ("manage_users" ∷ []) (some fetched) team))
    ≡ some (
      "u1",
      permissions_by
          (λ k.
            if str_eq k "manage_users"
            then true
            else listed k ("manage_users" ∷ []) && granted_of k fetched.permissions)
          keys,
    )
save_permissions-load_example =
    save_permissions-load ("manage_users" ∷ []) keys fetched team "u1" "manage_users" true refl refl

update_start-open_edit_example :
    (update_start (open_edit bob team)
      ≡ some (
        "u2",
        record {
          full_name = some "Bob";
          role = some manager;
          status = none;
          max_concurrent_evaluations = some 12;
        },
      ))
    × ((limit : ℕ) × (1 ≤ limit)
        × (update_start (record (open_edit bob team) { edit_concurrency = "0" })
            ≡ some (
              "u2",
              record {
                full_name = some "Bob";
                role = some manager;
                status = none;
                max_concurrent_evaluations = some limit;
              },
            )))
update_start-open_edit_example = update_start-open_edit team bob "0" (omega arith)
