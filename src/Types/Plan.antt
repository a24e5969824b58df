-- ===== src/Types/Plan.antt =====
-- portal/src/types/plan.ts: plans.
-- A field that may be missing or null is an `Option`.
use mutell_demo.Prelude.{ℕ, String, Bool, Option, List, ◌++◌}
use mutell_demo.Http.{Object, str, num, bool, strs, always, maybe}

pub record Plan : Type 0 where
  pub id : String
  pub name : String
  pub description : Option String
  pub max_terminals : ℕ
  pub max_users : ℕ
  pub max_slots_per_day : ℕ
  pub retention_days : ℕ
  pub allowed_ai_providers : List String
  pub custom_prompt_allowed : Bool
  pub report_export_allowed : Bool
  pub api_rate_limit_per_min : ℕ
  pub is_active : Bool
  pub created_at : String
  pub updated_at : String

pub record PlanCreateRequest : Type 0 where
  pub name : String
  pub description : Option String
  pub max_terminals : Option ℕ
  pub max_users : Option ℕ
  pub max_slots_per_day : Option ℕ
  pub retention_days : Option ℕ
  pub allowed_ai_providers : Option (List String)
  pub custom_prompt_allowed : Option Bool
  pub report_export_allowed : Option Bool
  pub api_rate_limit_per_min : Option ℕ

-- The object that is sent.
unfoldable pub plan_create_request_object : PlanCreateRequest → Object
plan_create_request_object r =
    always "name" str r.name
    ++ (maybe "description" str r.description
        ++ (maybe "max_terminals" num r.max_terminals
            ++ (maybe "max_users" num r.max_users
                ++ (maybe "max_slots_per_day" num r.max_slots_per_day
                    ++ (maybe "retention_days" num r.retention_days
                        ++ (maybe "allowed_ai_providers" strs r.allowed_ai_providers
                            ++ (maybe "custom_prompt_allowed" bool r.custom_prompt_allowed
                                ++ (maybe "report_export_allowed" bool r.report_export_allowed
                                    ++ (maybe "api_rate_limit_per_min" num
                                        r.api_rate_limit_per_min)))))))))

pub record PlanUpdateRequest : Type 0 where
  pub name : Option String
  pub description : Option String
  pub max_terminals : Option ℕ
  pub max_users : Option ℕ
  pub max_slots_per_day : Option ℕ
  pub retention_days : Option ℕ
  pub allowed_ai_providers : Option (List String)
  pub custom_prompt_allowed : Option Bool
  pub report_export_allowed : Option Bool
  pub api_rate_limit_per_min : Option ℕ
  pub is_active : Option Bool

-- The object that is sent.
unfoldable pub plan_update_request_object : PlanUpdateRequest → Object
plan_update_request_object r =
    maybe "name" str r.name
    ++ (maybe "description" str r.description
        ++ (maybe "max_terminals" num r.max_terminals
            ++ (maybe "max_users" num r.max_users
                ++ (maybe "max_slots_per_day" num r.max_slots_per_day
                    ++ (maybe "retention_days" num r.retention_days
                        ++ (maybe "allowed_ai_providers" strs r.allowed_ai_providers
                            ++ (maybe "custom_prompt_allowed" bool r.custom_prompt_allowed
                                ++ (maybe "report_export_allowed" bool r.report_export_allowed
                                    ++ (maybe "api_rate_limit_per_min" num r.api_rate_limit_per_min
                                        ++ (maybe "is_active" bool r.is_active))))))))))
