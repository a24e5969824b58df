-- ===== src/Pages/Lists/Admin.antt =====
-- The items that the pages of the administrators show, portal/src/app/(app)/admin: the lists of
-- plans, tenants and users, and the audit log.
use mutell_demo.Prelude.{
  ℕ, ◌≡◌, refl, String, Bool, false, Option, none, some, List, [], ◌∷◌, ◌++◌, ◌∙◌,
}
use mutell_demo.Types.Plan.{Plan}
use mutell_demo.Types.Tenant.{Tenant}
use mutell_demo.Types.Auth.{UserResponse}
use mutell_demo.Types.Query.{AuditEntry, AuditLogResponse}
use mutell_demo.Format.{Locale}
use mutell_demo.Screen.{
  keys, shown_if, pager_part, confirm_dialog, has_target, empty_state, button, text,
}
use mutell_demo.Screen.Laws.{no_keys, keys-modal, keys-shown_if}
use mutell_demo.Screen.Labels.{labels, labels-skip, labels-listing_last, labels-listing, loaded}
use mutell_demo.Pages.Admin.Plans
use mutell_demo.Pages.Admin.Plans.{PlansPage}
use mutell_demo.Pages.Tenants.View as Tenants
use mutell_demo.Pages.Tenants.View.{AdminTenantsResponse}
use mutell_demo.Pages.Tenants.{AdminTenantsPage}
use mutell_demo.Types.Ai.{AiProvider}
use mutell_demo.Pages.Admin.Providers
use mutell_demo.Pages.Admin.Providers.{ProvidersPage}
use mutell_demo.Pages.Admin.Users
use mutell_demo.Pages.Admin.Users.{AdminUsersPage, AdminUsersResponse}
use mutell_demo.Pages.Admin.AuditLog
use mutell_demo.Pages.Admin.AuditLog.{AuditLogPage}

plan_card-keys : (l : Locale) (x : Plan) → keys (Plans.plan_card l x) ≡ []
unfolding keys Plans.plan_card
plan_card-keys l x = simp no_keys

create_plan-keys : (busy : Bool) (p : PlansPage) → keys (Plans.create_dialog busy p) ≡ []
unfolding keys Plans.create_dialog
create_plan-keys busy p = keys-modal p.create_open Plans.close_create _ refl

edit_plan-keys : (busy : Bool) (p : PlansPage) → keys (Plans.edit_dialog busy p) ≡ []
unfolding keys Plans.edit_dialog
edit_plan-keys busy p = keys-modal p.edit_open Plans.close_edit _ refl

pub plan_labels :
    (l : Locale) (is_loading : Bool) (plans : Option (List Plan)) (creating updating : Bool)
    (p : PlansPage)
    → labels (Plans.plans_view l is_loading plans creating updating p)
      ≡ loaded is_loading (λ (x : Plan). (x.id, x.name)) plans
unfolding keys labels Plans.plans_view Plans.plan_card
plan_labels l is_loading plans creating updating p =
    labels-skip (Plans.create_dialog creating p) _ (create_plan-keys creating p)
    ∙ (labels-skip (Plans.edit_dialog updating p) _ (edit_plan-keys updating p)
        ∙ ((labels-listing_last (λ (x : Plan). x.id) (λ (x : Plan). x.name) (Plans.plan_card l)
            (plan_card-keys l) (λ x ps. refl) is_loading plans 3
            (empty_state "No plans" "Create your first plan.") ([]) refl)))

abbrev pub entries_of : Option AuditLogResponse → Option (List AuditEntry)
entries_of none = none
entries_of (some r) = some r.items

entry_row-keys : (l : Locale) (x : AuditEntry) → keys (AuditLog.entry_row l x) ≡ []
unfolding keys AuditLog.entry_row
entry_row-keys l x = simp no_keys

pub entry_labels :
    (l : Locale) (is_loading : Bool) (response : Option AuditLogResponse) (p : AuditLogPage)
    → labels (AuditLog.audit_view l is_loading response p)
      ≡ loaded is_loading (λ (x : AuditEntry). (x.id, x.action)) (entries_of response)
unfolding keys labels AuditLog.audit_view AuditLog.entry_row
entry_labels l is_loading none p =
    labels-skip
      (shown_if (AuditLog.has_filters p) (button "Clear filters" false AuditLog.clear_filters ∷ []))
      _
      (keys-shown_if (AuditLog.has_filters p)
        (button "Clear filters" false AuditLog.clear_filters ∷ []) refl)
    ∙ (labels-listing (λ (x : AuditEntry). x.id) (λ (x : AuditEntry). x.action)
        (AuditLog.entry_row l) (pager_part AuditLog.per_page none p.page) (entry_row-keys l)
        (λ x ps. refl) (simp no_keys) is_loading none 3
        (empty_state "No audit entries" "No log entries match your filter.")
        ("Action" ∷ "Resource" ∷ "User ID" ∷ "IP" ∷ "Status" ∷ "Time" ∷ []) refl)
entry_labels l is_loading (some r) p =
    labels-skip
      (shown_if (AuditLog.has_filters p) (button "Clear filters" false AuditLog.clear_filters ∷ []))
      _
      (keys-shown_if (AuditLog.has_filters p)
        (button "Clear filters" false AuditLog.clear_filters ∷ []) refl)
    ∙ (labels-listing (λ (x : AuditEntry). x.id) (λ (x : AuditEntry). x.action)
        (AuditLog.entry_row l) (pager_part AuditLog.per_page (some r.total) p.page)
        (entry_row-keys l) (λ x ps. refl) (simp no_keys) is_loading (some r.items) 3
        (empty_state "No audit entries" "No log entries match your filter.")
        ("Action" ∷ "Resource" ∷ "User ID" ∷ "IP" ∷ "Status" ∷ "Time" ∷ []) refl)

abbrev pub users_of : Option AdminUsersResponse → Option (List UserResponse)
users_of none = none
users_of (some r) = some r.items

user_row-keys : (l : Locale) (x : UserResponse) → keys (Users.user_row l x) ≡ []
unfolding keys Users.user_row
user_row-keys l x = simp no_keys

edit_user-keys : (busy : Bool) (p : AdminUsersPage) → keys (Users.edit_dialog busy p) ≡ []
unfolding keys Users.edit_dialog
edit_user-keys busy p = keys-modal p.edit_open Users.close_edit _ refl

pub user_labels :
    (l : Locale) (is_loading : Bool) (response : Option AdminUsersResponse) (updating : Bool)
    (p : AdminUsersPage)
    → labels (Users.users_view l is_loading response updating p)
      ≡ loaded is_loading (λ (x : UserResponse). (x.id, x.full_name)) (users_of response)
unfolding keys labels Users.users_view Users.user_row
user_labels l is_loading none updating p =
    labels-skip (Users.edit_dialog updating p) _ (edit_user-keys updating p)
    ∙ (labels-listing (λ (x : UserResponse). x.id) (λ (x : UserResponse). x.full_name)
        (Users.user_row l) (pager_part Users.per_page none p.page) (user_row-keys l) (λ x ps. refl)
        (simp no_keys) is_loading none 3 (empty_state "No users" "No users found.")
        ("Name" ∷ "Email" ∷ "Role" ∷ "Status" ∷ "Concurrent Limit" ∷ "Last Login" ∷ "Actions" ∷ [])
        refl)
user_labels l is_loading (some r) updating p =
    labels-skip (Users.edit_dialog updating p) _ (edit_user-keys updating p)
    ∙ (labels-listing (λ (x : UserResponse). x.id) (λ (x : UserResponse). x.full_name)
        (Users.user_row l) (pager_part Users.per_page (some r.total) p.page) (user_row-keys l)
        (λ x ps. refl) (simp no_keys) is_loading (some r.items) 3
        (empty_state "No users" "No users found.")
        ("Name" ∷ "Email" ∷ "Role" ∷ "Status" ∷ "Concurrent Limit" ∷ "Last Login" ∷ "Actions" ∷ [])
        refl)

abbrev pub tenants_of : Option AdminTenantsResponse → Option (List Tenant)
tenants_of none = none
tenants_of (some r) = some r.items

tenant_row-keys : (l : Locale) (x : Tenant) → keys (Tenants.tenant_row l x) ≡ []
unfolding keys Tenants.tenant_row
tenant_row-keys l x = simp no_keys

create_tenant-keys :
    (options : List (String × String)) (busy : Bool) (p : AdminTenantsPage)
    → keys (Tenants.create_dialog options busy p) ≡ []
unfolding keys Tenants.create_dialog
create_tenant-keys options busy p = keys-modal p.create_open Tenants.close_create _ refl

edit_tenant-keys : (busy : Bool) (p : AdminTenantsPage) → keys (Tenants.edit_dialog busy p) ≡ []
unfolding keys Tenants.edit_dialog
edit_tenant-keys busy p = keys-modal p.edit_open Tenants.close_edit _ refl

pub tenant_labels :
    (l : Locale) (is_loading : Bool) (response : Option AdminTenantsResponse)
    (options : List (String × String)) (creating updating deleting : Bool) (page : ℕ)
    (p : AdminTenantsPage)
    → labels (Tenants.tenants_view l is_loading response options creating updating deleting page p)
      ≡ loaded is_loading (λ (x : Tenant). (x.id, x.name)) (tenants_of response)
unfolding keys labels Tenants.tenants_view Tenants.tenant_row
tenant_labels l is_loading none options creating updating deleting page p =
    labels-skip (Tenants.create_dialog options creating p) _ (create_tenant-keys options creating p)
    ∙ (labels-skip (Tenants.edit_dialog updating p) _ (edit_tenant-keys updating p)
        ∙ (labels-listing (λ (x : Tenant). x.id) (λ (x : Tenant). x.name) (Tenants.tenant_row l)
            (pager_part Tenants.per_page none page
              ++ confirm_dialog (has_target p.delete_target) "Delete Tenant"
                  "Are you sure you want to delete this tenant? This will soft-delete it." "Delete"
                  deleting Tenants.close_delete Tenants.confirm_delete)
            (tenant_row-keys l) (λ x ps. refl) (simp no_keys) is_loading none 3
            (empty_state "No tenants" "Create your first tenant to get started.")
            ("Name" ∷ "Slug" ∷ "Status" ∷ "Contact" ∷ "Created" ∷ "Actions" ∷ []) refl))
tenant_labels l is_loading (some r) options creating updating deleting page p =
    labels-skip (Tenants.create_dialog options creating p) _ (create_tenant-keys options creating p)
    ∙ (labels-skip (Tenants.edit_dialog updating p) _ (edit_tenant-keys updating p)
        ∙ (labels-listing (λ (x : Tenant). x.id) (λ (x : Tenant). x.name) (Tenants.tenant_row l)
            (pager_part Tenants.per_page (some r.total) page
              ++ confirm_dialog (has_target p.delete_target) "Delete Tenant"
                  "Are you sure you want to delete this tenant? This will soft-delete it." "Delete"
                  deleting Tenants.close_delete Tenants.confirm_delete)
            (tenant_row-keys l) (λ x ps. refl) (simp no_keys) is_loading (some r.items) 3
            (empty_state "No tenants" "Create your first tenant to get started.")
            ("Name" ∷ "Slug" ∷ "Status" ∷ "Contact" ∷ "Created" ∷ "Actions" ∷ []) refl))

provider_card-keys : (x : AiProvider) → keys (Providers.provider_card x) ≡ []
unfolding keys Providers.provider_card
provider_card-keys x = simp no_keys

edit_provider-keys : (busy : Bool) (p : ProvidersPage) → keys (Providers.edit_dialog busy p) ≡ []
unfolding keys Providers.edit_dialog
edit_provider-keys busy p = keys-modal p.edit_open Providers.close_edit _ refl

-- With the dialog for the models of a provider closed.
pub provider_labels :
    (is_loading : Bool) (providers : Option (List AiProvider)) (updating : Bool) (p : ProvidersPage)
    → labels
        (Providers.providers_view is_loading providers updating (record p { models_open = false }))
      ≡ loaded is_loading (λ (x : AiProvider). (x.id, x.display_name)) providers
unfolding keys labels Providers.providers_view Providers.provider_card Providers.models_dialog
provider_labels is_loading providers updating p =
    labels-skip (Providers.edit_dialog updating (record p { models_open = false })) _
      (edit_provider-keys updating (record p { models_open = false }))
    ∙ labels-listing_last (λ (x : AiProvider). x.id) (λ (x : AiProvider). x.display_name)
        Providers.provider_card provider_card-keys (λ x ps. refl) is_loading providers 3
        (text "No AI providers configured" ∷ []) [] refl
