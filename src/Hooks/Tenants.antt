-- ===== src/Hooks/Tenants.antt =====
-- portal/src/hooks/useTenants.ts.
use mutell_demo.Prelude.{String, true, Option, none, [], ◌∷◌, is_truthy, or_else}
use mutell_demo.Browser.{success, failure, detail_of}
use mutell_demo.Types.Query.{PageParams, page_params_object}
use mutell_demo.Types.Tenant.{TenantCreateRequest, TenantUpdateRequest}
use mutell_demo.Services.Tenants
use mutell_demo.Hooks.{text, object_part, Query, Mutation, invalidate, notify}

unfoldable pub use_tenant_list : (params : Option PageParams) → Query
use_tenant_list params = record {
  key = text "tenants" ∷ object_part page_params_object params ∷ [];
  endpoint = Tenants.list params;
  enabled = true;
  refetch_interval = none;
}

unfoldable pub use_tenant_detail : (tenant_id : String) → Query
use_tenant_detail tenant_id = record {
  key = text "tenants" ∷ text tenant_id ∷ [];
  endpoint = Tenants.get tenant_id;
  enabled = is_truthy tenant_id;
  refetch_interval = none;
}

unfoldable pub use_create_tenant : (request : TenantCreateRequest) → Mutation (Unit {0})
use_create_tenant request = record {
  endpoint = Tenants.create request;
  on_success = λ reply. invalidate (text "tenants" ∷ []) ∷ notify (success "Tenant created") ∷ [];
  on_error = λ e. notify (failure (or_else (detail_of e) "Failed to create tenant")) ∷ [];
}

unfoldable pub use_update_tenant :
    (id : String) (request : TenantUpdateRequest) → Mutation (Unit {0})
use_update_tenant id request = record {
  endpoint = Tenants.update id request;
  on_success = λ reply. invalidate (text "tenants" ∷ []) ∷ notify (success "Tenant updated") ∷ [];
  on_error = λ e. notify (failure "Failed to update tenant") ∷ [];
}

unfoldable pub use_delete_tenant : (id : String) → Mutation (Unit {0})
use_delete_tenant id = record {
  endpoint = Tenants.delete id;
  on_success = λ reply. invalidate (text "tenants" ∷ []) ∷ notify (success "Tenant deleted") ∷ [];
  on_error = λ e. notify (failure "Failed to delete tenant") ∷ [];
}
