-- ===== src/Pages/Tenants/View.antt =====
-- What portal/src/app/(app)/admin/tenants/page.tsx and
-- portal/src/app/(app)/settings/organization/page.tsx show.
use mutell_demo.Prelude.{
  ℕ, String, Bool, true, false, Option, none, some, List, [], ◌∷◌, ◌++◌, is_truthy, if◌then◌else◌,
  decimal,
}
use mutell_demo.Types.{tenant_status_text}
use mutell_demo.Types.Tenant.{Tenant}
use mutell_demo.Format.{Locale, format_relative_time}
use mutell_demo.Screen.{
  Part, heading, text, bone, button, menu, input, select, modal, counted, empty_state, listing,
  status_part, pager_part, confirm_dialog, has_target,
}
use mutell_demo.Pages.Tenants.{AdminTenantsPage, OrganizationForm, number_text}

abbrev pub per_page : ℕ
per_page = 20

pub record AdminTenantsResponse : Type 0 where
  pub items : List Tenant
  pub total : ℕ

pub data Click : Type 0 where
  open_create close_create create close_edit update close_delete confirm_delete save : Click
  detail ask_delete : String → Click
  edit : Tenant → Click

pub data Field : Type 0 where
  name slug contact_email plan edit_name edit_email edit_phone edit_address : Field
  contact_phone address timezone duration : Field

unfoldable pub create_dialog :
    List (String × String) → Bool → AdminTenantsPage → List (Part Click Field)
unfolding modal
create_dialog plan_options busy p = modal p.create_open close_create (
    heading "Create Tenant"
    ∷ input "Name" name p.name false
    ∷ input "Slug" slug p.slug false
    ∷ input "Contact Email" contact_email p.contact_email false
    ∷ select "Plan" plan (("", "No plan") ∷ plan_options) ""
    ∷ button (if busy then "Creating..." else "Create") busy create
    ∷ button "Cancel" false close_create
    ∷ [])

unfoldable pub edit_dialog : Bool → AdminTenantsPage → List (Part Click Field)
unfolding modal
edit_dialog busy p = modal p.edit_open close_edit (
    heading "Edit Tenant"
    ∷ input "Name" edit_name p.edit_name false
    ∷ input "Contact Email" edit_email p.edit_email false
    ∷ input "Contact Phone" edit_phone p.edit_phone false
    ∷ input "Address" edit_address p.edit_address false
    ∷ button (if busy then "Saving..." else "Save") busy update
    ∷ button "Cancel" false close_edit
    ∷ [])

-- The line of a tenant; its name leads to the page of the tenant.
unfoldable pub tenant_row : Locale → Tenant → List (Part Click Field)
unfolding format_relative_time
tenant_row l tenant =
    button tenant.name false (detail tenant.id)
    ∷ text tenant.slug
    ∷ status_part (tenant_status_text tenant.status)
    ∷ text tenant.contact_email
    ∷ text (format_relative_time l tenant.created_at)
    ∷ menu (
        record { label = "Edit"; danger = false; action = edit tenant }
        ∷ record { label = "Delete"; danger = true; action = ask_delete tenant.id }
        ∷ [])
    ∷ []

unfoldable pub tenants_view :
    Locale
    → Bool
    → Option AdminTenantsResponse
    → List (String × String)
    → Bool
    → Bool
    → Bool
    → ℕ
    → AdminTenantsPage
    → List (Part Click Field)
unfolding create_dialog edit_dialog listing tenant_row counted confirm_dialog
tenants_view l is_loading response plan_options creating updating deleting page p =
    let items = elim response as (λ x. Option (List Tenant)) [
      | none ↦ none
      | some r ↦ some r.items
    ] in
    let total = elim response as (λ x. Option ℕ) [ none ↦ none | some r ↦ some r.total ] in
    heading "Tenants"
    ∷ button "Create Tenant" false open_create
    ∷ (create_dialog plan_options creating p
        ++ (edit_dialog updating p
            ++ heading (counted "All Tenants" total)
              ∷ (listing is_loading items 3
                    (empty_state "No tenants" "Create your first tenant to get started.")
                    ("Name" ∷ "Slug" ∷ "Status" ∷ "Contact" ∷ "Created" ∷ "Actions" ∷ [])
                    (λ (tenant : Tenant). tenant.id) (tenant_row l)
                  ++ (pager_part per_page total page
                      ++ confirm_dialog (has_target p.delete_target) "Delete Tenant"
                          "Are you sure you want to delete this tenant? This will soft-delete it."
                          "Delete" deleting close_delete confirm_delete))))

abbrev of_tenant : (Tenant → String) → String → Option Tenant → String
of_tenant f fallback none = fallback
of_tenant f fallback (some tenant) = if is_truthy (f tenant) then f tenant else fallback

-- The settings of an organization.
unfoldable pub organization_view :
    (String → String) → Bool → Option Tenant → Bool → OrganizationForm → List (Part Click Field)
unfolding decimal
organization_view printed is_loading tenant saving form =
    heading "Organization Settings"
    ∷ (if is_loading
        then bone ∷ []
        else heading "Organization"
          ∷ text "Manage your organization details and preferences."
          ∷ input "Organization Name" name form.name false
          ∷ input "Slug" slug (of_tenant (λ t. t.slug) "" tenant) true
          ∷ input "Contact Email" contact_email form.contact_email false
          ∷ input "Contact Phone" contact_phone form.contact_phone false
          ∷ input "Address" address form.address false
          ∷ input "Timezone" timezone (of_tenant (λ t. t.timezone) "UTC" tenant) true
          ∷ input "Slot Duration (seconds)" duration (number_text printed form.slot_duration) false
          ∷ button (if saving then "Saving..." else "Save Changes") saving save
          ∷ [])
