-- ===== src/Hooks/Admin.antt =====
-- portal/src/hooks/useAdmin.ts.
use mutell_demo.Prelude.{String, true, Option, none, some, [], ◌∷◌, is_truthy}
use mutell_demo.Browser.{success, failure}
use mutell_demo.Types.Ai.{AiProvider, AiProviderUpdateRequest}
use mutell_demo.Types.Auth.{UpdateUserRequest}
use mutell_demo.Types.Plan.{PlanCreateRequest, PlanUpdateRequest}
use mutell_demo.Types.Query.{
  AuditLogParams, PageParams, audit_log_params_object, page_params_object,
}
use mutell_demo.Types.Tenant.{TenantCreateRequest, TenantUpdateRequest}
use mutell_demo.Services.AdminAiProviders
use mutell_demo.Services.AdminAuditLog
use mutell_demo.Services.AdminHealth
use mutell_demo.Services.AdminPlans
use mutell_demo.Services.AdminTenants
use mutell_demo.Services.AdminUsers
use mutell_demo.Hooks.{text, object_part, Query, Mutation, invalidate, notify, get_error_message}

unfoldable pub use_admin_tenants : (params : Option PageParams) → Query
use_admin_tenants params = record {
  key = text "admin" ∷ text "tenants" ∷ object_part page_params_object params ∷ [];
  endpoint = AdminTenants.list params;
  enabled = true;
  refetch_interval = none;
}

unfoldable pub use_admin_tenant_detail : (tenant_id : String) → Query
use_admin_tenant_detail tenant_id = record {
  key = text "admin" ∷ text "tenants" ∷ text tenant_id ∷ [];
  endpoint = AdminTenants.get tenant_id;
  enabled = is_truthy tenant_id;
  refetch_interval = none;
}

unfoldable pub use_admin_create_tenant : (request : TenantCreateRequest) → Mutation (Unit {0})
use_admin_create_tenant request = record {
  endpoint = AdminTenants.create request;
  on_success = λ reply.
      invalidate (text "admin" ∷ text "tenants" ∷ []) ∷ notify (success "Tenant created") ∷ [];
  on_error = λ e. notify (failure (get_error_message e)) ∷ [];
}

unfoldable pub use_admin_update_tenant :
    (id : String) (request : TenantUpdateRequest) → Mutation (Unit {0})
use_admin_update_tenant id request = record {
  endpoint = AdminTenants.update id request;
  on_success = λ reply.
      invalidate (text "admin" ∷ text "tenants" ∷ [])
      ∷ invalidate (text "admin" ∷ text "tenants" ∷ text id ∷ [])
      ∷ notify (success "Tenant updated")
      ∷ [];
  on_error = λ e. notify (failure "Failed to update tenant") ∷ [];
}

unfoldable pub use_admin_delete_tenant : (id : String) → Mutation (Unit {0})
use_admin_delete_tenant id = record {
  endpoint = AdminTenants.delete id;
  on_success = λ reply.
      invalidate (text "admin" ∷ text "tenants" ∷ []) ∷ notify (success "Tenant deleted") ∷ [];
  on_error = λ e. notify (failure "Failed to delete tenant") ∷ [];
}

unfoldable pub use_admin_plans : (params : Option PageParams) → Query
use_admin_plans params = record {
  key = text "admin" ∷ text "plans" ∷ object_part page_params_object params ∷ [];
  endpoint = AdminPlans.list params;
  enabled = true;
  refetch_interval = none;
}

unfoldable pub use_admin_create_plan : (request : PlanCreateRequest) → Mutation (Unit {0})
use_admin_create_plan request = record {
  endpoint = AdminPlans.create request;
  on_success =
      λ reply. invalidate (text "admin" ∷ text "plans" ∷ []) ∷ notify (success "Plan created") ∷ [];
  on_error = λ e. notify (failure "Failed to create plan") ∷ [];
}

unfoldable pub use_admin_update_plan :
    (id : String) (request : PlanUpdateRequest) → Mutation (Unit {0})
use_admin_update_plan id request = record {
  endpoint = AdminPlans.update id request;
  on_success =
      λ reply. invalidate (text "admin" ∷ text "plans" ∷ []) ∷ notify (success "Plan updated") ∷ [];
  on_error = λ e. notify (failure "Failed to update plan") ∷ [];
}

unfoldable pub use_admin_users : (params : Option PageParams) → Query
use_admin_users params = record {
  key = text "admin" ∷ text "users" ∷ object_part page_params_object params ∷ [];
  endpoint = AdminUsers.list params;
  enabled = true;
  refetch_interval = none;
}

unfoldable pub use_admin_update_user :
    (id : String) (request : UpdateUserRequest) → Mutation (Unit {0})
use_admin_update_user id request = record {
  endpoint = AdminUsers.update id request;
  on_success =
      λ reply. invalidate (text "admin" ∷ text "users" ∷ []) ∷ notify (success "User updated") ∷ [];
  on_error = λ e. notify (failure (get_error_message e)) ∷ [];
}

unfoldable pub use_admin_audit_log : (params : Option AuditLogParams) → Query
use_admin_audit_log params = record {
  key = text "admin" ∷ text "audit-log" ∷ object_part audit_log_params_object params ∷ [];
  endpoint = AdminAuditLog.list params;
  enabled = true;
  refetch_interval = none;
}

unfoldable pub use_admin_health : Query
use_admin_health = record {
  key = text "admin" ∷ text "health" ∷ [];
  endpoint = AdminHealth.get;
  enabled = true;
  refetch_interval = some 10000;
}

unfoldable pub use_admin_ai_providers : Query
use_admin_ai_providers = record {
  key = text "admin" ∷ text "ai-providers" ∷ [];
  endpoint = AdminAiProviders.list;
  enabled = true;
  refetch_interval = none;
}

unfoldable pub use_admin_update_ai_provider :
    (id : String) (request : AiProviderUpdateRequest) → Mutation (Unit {0})
use_admin_update_ai_provider id request = record {
  endpoint = AdminAiProviders.update id request;
  on_success = λ reply.
      invalidate (text "admin" ∷ text "ai-providers" ∷ [])
      ∷ notify (success "AI provider updated")
      ∷ [];
  on_error = λ e. notify (failure "Failed to update AI provider") ∷ [];
}

unfoldable pub use_admin_add_provider_model :
    (provider_id : String) (model_id : String) → Mutation AiProvider
use_admin_add_provider_model provider_id model_id = record {
  endpoint = AdminAiProviders.add_model provider_id model_id;
  on_success = λ reply.
      invalidate (text "admin" ∷ text "ai-providers" ∷ []) ∷ notify (success "Model added") ∷ [];
  on_error = λ e. notify (failure "Failed to add model") ∷ [];
}

unfoldable pub use_admin_remove_provider_model :
    (provider_id : String) (model_id : String) → Mutation AiProvider
use_admin_remove_provider_model provider_id model_id = record {
  endpoint = AdminAiProviders.remove_model provider_id model_id;
  on_success = λ reply.
      invalidate (text "admin" ∷ text "ai-providers" ∷ []) ∷ notify (success "Model removed") ∷ [];
  on_error = λ e. notify (failure "Failed to remove model") ∷ [];
}
