-- ===== src/Pages/Admin/Users/Tests.antt =====
-- The limit of one user.
use mutell_demo.Prelude.{ℕ, ◌≤◌, ◌≡◌, ◌⊎◌, refl, true, none, some}
use mutell_demo.Types.{manager}
use mutell_demo.Types.Auth.{UserResponse}
use mutell_demo.Pages.Team.{concurrency_of}
use mutell_demo.Pages.Admin.Users.{AdminUsersPage, update_start}
use mutell_demo.Pages.Admin.Users.Limits.{limit_only, limits_agree}

abbrev pub bob : UserResponse
bob = record {
  id = "u2";
  tenant_id = "t1";
  email = "bob@shop.example";
  full_name = "Bob";
  avatar_url = none;
  role = manager;
  status = "active";
  last_login_at = none;
  created_at = "2025-01-01";
  max_concurrent_evaluations = 12;
}

abbrev pub users_page : AdminUsersPage
users_page = record { page = 1; edit_open = true; editing_user = some bob; edit_concurrency = "7x" }

limits_agree_example :
    ((limit : ℕ) × (1 ≤ limit)
      × (update_start users_page ≡ some ("u2", limit_only limit))
      × (concurrency_of "7x" ≡ limit))
    ⊎ ((update_start users_page ≡ none) × (concurrency_of "7x" ≡ 1))
limits_agree_example = limits_agree users_page bob refl
