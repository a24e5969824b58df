-- ===== src/Pages/Lists/Tests.antt =====
-- The pages with a list, with a plan, a user, a report, a provider and a slot.
use mutell_demo.Prelude.{ℕ, ◌≡◌, true, false, Option, none, some, [], ◌∷◌}
use mutell_demo.Types.{viewer}
use mutell_demo.Types.{SlotStatus}
use mutell_demo.Types.Slot.{Slot}
use mutell_demo.Format.{truncate}
use mutell_demo.Screen.Labels.{labels}
use mutell_demo.Screen.Scores.{whole_scores}
use mutell_demo.Pages.Admin.Providers.{providers_view}
use mutell_demo.Pages.Admin.Providers.Tests.{first, page}
use mutell_demo.Pages.Slots
use mutell_demo.Pages.Slots.View.{slots_view}
use mutell_demo.Format.Plain.{plain}
use mutell_demo.Pages.Admin.Plans.{plans_view}
use mutell_demo.Pages.Admin.Plans.Tests.{basic, plans_page}
use mutell_demo.Pages.Tenants.{AdminTenantsPage}
use mutell_demo.Pages.Tenants.View.{tenants_view}
use mutell_demo.Pages.Admin.Users.{AdminUsersResponse, users_view}
use mutell_demo.Pages.Admin.Users.Tests.{bob, users_page}
use mutell_demo.Pages.Admin.AuditLog.{opened, audit_view}
use mutell_demo.Pages.Team.{TeamPage}
use mutell_demo.Pages.Team.View.{Busy, team_view}
use mutell_demo.Pages.Terminals.{TerminalsPage}
use mutell_demo.Pages.Terminals.View.{terminals_view}
use mutell_demo.Pages.Reports
use mutell_demo.Pages.Reports.{reports_view}
use mutell_demo.Pages.Reports.Tests.{reports}
use mutell_demo.Pages.Settings.Ai.View.{ai_view}
use mutell_demo.Pages.Settings.Ai.Tests.{ai_page}
use mutell_demo.Pages.Lists.Shown.{items_shown}

abbrev tenants_page : AdminTenantsPage
tenants_page = record {
  create_open = true;
  edit_open = false;
  name = "";
  slug = "";
  contact_email = "";
  plan_id = "";
  editing_tenant = none;
  edit_name = "";
  edit_email = "";
  edit_phone = "";
  edit_address = "";
  delete_target = none;
}

abbrev team : TeamPage
team = record {
  invite_open = false;
  invite_email = "";
  invite_name = "";
  invite_role = viewer;
  edit_open = false;
  editing_user = none;
  edit_name = "";
  edit_role = viewer;
  edit_concurrency = "1";
  delete_target = some "u2";
  permissions_open = false;
  permissions_target = none;
  permissions_state = [];
}

abbrev terminals_page : TerminalsPage
terminals_page = record {
  create_open = false;
  edit_open = false;
  name = "";
  description = "";
  location = "";
  revealed_key = some "key";
  editing_terminal = none;
  edit_name = "";
  edit_desc = "";
  edit_loc = "";
  delete_target = none;
}

abbrev idle : Busy
idle = record { inviting = false; updating = false; saving = false; suspending = false }

abbrev users : Option AdminUsersResponse
users = some (record { items = bob ∷ []; total = 1 })

abbrev talk : Slot ℕ
talk = record {
  id = "0123456789";
  terminal_id = "t1";
  tenant_id = "shop";
  started_at = "";
  ended_at = "";
  duration_secs = 60;
  language = none;
  word_count = some 7;
  status = SlotStatus.evaluated;
  tags = "swearing" ∷ [];
  metadata = none;
  created_at = "";
  score_overall = some 80;
}

items_shown_example :
    (labels (plans_view plain false (some (basic ∷ [])) false false plans_page)
      ≡ ("p1", "Basic") ∷ [])
    × (labels (tenants_view plain false none [] false false false 1 tenants_page) ≡ [])
    × (labels (users_view plain false users false users_page) ≡ ("u2", "Bob") ∷ [])
    × (labels (audit_view plain false none opened) ≡ [])
    × (labels (team_view plain false none none none idle 1 team) ≡ [])
    × (labels (terminals_view plain false none false false false 1 terminals_page) ≡ [])
    × (labels (reports_view plain true false reports false false Reports.opened)
        ≡ ("r1", "March") ∷ [])
    × (labels (ai_view true false none none false false false ai_page) ≡ [])
    × (labels (providers_view false (some (first ∷ [])) false (record page { models_open = false }))
        ≡ ("a", "A") ∷ [])
    × (labels (
          slots_view plain true false
            (some (record { items = talk ∷ []; total = 1 }))
            none
            false
            Slots.opened)
        ≡ ("0123456789", truncate "0123456789" 8) ∷ [])
items_shown_example =
    items_shown plain false true false false false 1 (some (basic ∷ [])) plans_page none []
      tenants_page users users_page none opened none none none idle team none terminals_page reports
      Reports.opened none none ai_page (some (first ∷ [])) page
      (some (record { items = talk ∷ []; total = 1 })) none Slots.opened
