-- ===== src/Hooks/Cache/Tests.antt =====
-- The theorems about cached answers, with keys matched part by part.
use mutell_demo.Prelude.{none, some, []}
use mutell_demo.Types.Slot.{BulkReEvaluateRequest}
use mutell_demo.Types.Auth.{UpdateUserRequest}
use mutell_demo.Types.Tenant.{TenantUpdateRequest}
use mutell_demo.Types.Plan.{PlanUpdateRequest}
use mutell_demo.Types.Ai.{AiProviderUpdateRequest}
use mutell_demo.Hooks.Users.{
  use_update_user, use_set_permissions, use_user_list, use_get_permissions,
}
use mutell_demo.Hooks.Slots.{
  use_re_evaluate, use_bulk_re_evaluate, use_slot_list, use_slot_detail, use_evaluation,
}
use mutell_demo.Hooks.Tenants.{use_update_tenant, use_tenant_detail}
use mutell_demo.Hooks.AiSettings.{use_ai_providers}
use mutell_demo.Hooks.Admin.{
  use_admin_update_tenant, use_admin_update_plan, use_admin_update_user,
  use_admin_update_ai_provider, use_admin_tenant_detail, use_admin_users,
}
use mutell_demo.Hooks.Plans.{use_plan_detail}
use mutell_demo.Hooks.Cache.{matching_by_parts}
use mutell_demo.Hooks.Cache.Refresh.{Refreshes, Keeps, re_evaluate-Refreshes, scopes_apart}

abbrev several : BulkReEvaluateRequest
several = record { slot_ids = [] }

abbrev user : UpdateUserRequest
user = record { full_name = none; role = none; status = none; max_concurrent_evaluations = none }

abbrev tenant : TenantUpdateRequest
tenant = record {
  name = none;
  contact_email = none;
  contact_phone = none;
  address = none;
  timezone = none;
  slot_duration_secs = none;
  plan_id = none;
}

abbrev plan : PlanUpdateRequest
plan = record {
  name = none;
  description = none;
  max_terminals = none;
  max_users = none;
  max_slots_per_day = none;
  retention_days = none;
  allowed_ai_providers = none;
  custom_prompt_allowed = none;
  report_export_allowed = none;
  api_rate_limit_per_min = none;
  is_active = none;
}

abbrev provider : AiProviderUpdateRequest
provider = record { display_name = none; is_active = none; api_key = none; base_url = none }

re_evaluate-Refreshes_example :
    Refreshes matching_by_parts (use_re_evaluate "s1") (use_slot_list none)
    × Refreshes matching_by_parts (use_re_evaluate "s1") (use_slot_detail "s1")
    × Refreshes matching_by_parts (use_bulk_re_evaluate several) (use_slot_list none)
    × Refreshes matching_by_parts (use_bulk_re_evaluate several) (use_slot_detail "s2")
re_evaluate-Refreshes_example = re_evaluate-Refreshes matching_by_parts "s1" "s2" none several

scopes_apart_example :
    Keeps matching_by_parts (use_admin_update_ai_provider "s1" provider) use_ai_providers
    × Keeps matching_by_parts (use_admin_update_tenant "s1" tenant) (use_tenant_detail "s1")
    × Keeps matching_by_parts (use_update_tenant "s1" tenant) (use_admin_tenant_detail "s1")
    × Keeps matching_by_parts (use_admin_update_plan "s1" plan) (use_plan_detail "s1")
    × Keeps matching_by_parts (use_admin_update_user "s1" user) (use_user_list none)
    × Keeps matching_by_parts (use_update_user "s1" user) (use_admin_users none)
    × Keeps matching_by_parts (use_re_evaluate "s1") (use_evaluation "s1")
    × Keeps matching_by_parts (use_set_permissions "s1" []) (use_get_permissions (some "s1"))
scopes_apart_example = scopes_apart matching_by_parts "s1" provider tenant plan user [] none
