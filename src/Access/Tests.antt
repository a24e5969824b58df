-- ===== src/Access/Tests.antt =====
-- The theorems about roles and layouts at one user and one sign-in.
use mutell_demo.Prelude.{◌≡◌, ◌≢◌, ◌↔◌, true, false, none, leb}
use mutell_demo.Types.{viewer}
use mutell_demo.Browser.{empty_storage}
use mutell_demo.Session.{User, Session, LoginData}
use mutell_demo.Access.{content, home, app_layout, admin_page, is_super_admin}
use mutell_demo.Access.Roles.{reports, allowed, rank, threshold, in_role, allowed_iff_rank}
use mutell_demo.Access.Guards.{shown_iff}

abbrev bob : User
bob = record {
  id = "u2";
  email = "bob@shop.example";
  full_name = "Bob";
  role = "auditor";
  tenant_id = none;
  avatar_url = none;
}

abbrev answer : LoginData
answer = record { access_token = "a"; refresh_token = "r"; user = bob }

abbrev idle : Session
idle = record { user = none; is_loading = false; storage = empty_storage }

allowed_iff_rank_example :
    (allowed reports (in_role bob viewer) ≡ leb (threshold reports) (rank viewer))
    × (allowed reports none ≡ false)
allowed_iff_rank_example = allowed_iff_rank reports bob viewer

shown_iff_example :
    (((app_layout idle).screen ≡ content) ↔ ((idle.is_loading ≡ false) × (idle.user ≢ none)))
    × (((admin_page idle).screen ≡ content)
        ↔ ((idle.is_loading ≡ false) × (is_super_admin idle.user ≡ true)))
    × (idle.is_loading ≡ true
        → ((home idle).redirect ≡ none)
          × ((app_layout idle).redirect ≡ none)
          × ((admin_page idle).redirect ≡ none))
shown_iff_example = shown_iff idle
