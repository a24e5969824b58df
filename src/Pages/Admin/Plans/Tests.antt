-- ===== src/Pages/Admin/Plans/Tests.antt =====
-- The dialog of one plan.
use mutell_demo.Prelude.{◌≡◌, true, false, none, some, [], ◌∷◌, whole, decimal}
use mutell_demo.Types.Plan.{Plan}
use mutell_demo.Pages.Admin.Plans.{PlansPage, first_texts, open_edit, update_start, toggle_active}
use mutell_demo.Pages.Admin.Plans.Laws.{own_values, only_active, plan_edited}

abbrev pub basic : Plan
basic = record {
  id = "p1";
  name = "Basic";
  description = none;
  max_terminals = 5;
  max_users = 10;
  max_slots_per_day = 1000;
  retention_days = 90;
  allowed_ai_providers = "openai" ∷ [];
  custom_prompt_allowed = false;
  report_export_allowed = true;
  api_rate_limit_per_min = 60;
  is_active = true;
  created_at = "";
  updated_at = "";
}

abbrev pub plans_page : PlansPage
plans_page = record {
  create_open = false;
  edit_open = false;
  editing_plan = none;
  fresh = first_texts;
  edited = first_texts;
}

abbrev opened : PlansPage
opened = open_edit basic plans_page

plan_edited_example :
    (update_start opened ≡ some ("p1", own_values basic ""))
    × (update_start (record opened { edited = record opened.edited { max_users = "25" } })
        ≡ some ("p1", record (own_values basic "") { max_users = some (whole 25) }))
    × (update_start (record opened { edited = record opened.edited { max_users = "" } })
        ≡ some ("p1", record (own_values basic "") { max_users = some (whole 0) }))
    × (toggle_active basic ≡ ("p1", only_active false))
unfolding decimal
plan_edited_example = plan_edited plans_page basic 25
