-- ===== src/Pages/Tenants.antt =====
-- Tenants: the admin's list, portal/src/app/(app)/admin/tenants/page.tsx, and a tenant's own
-- settings, portal/src/app/(app)/settings/organization/page.tsx.
pub mod View
use mutell_demo.Prelude.{
  ℕ, String, Bool, true, false, ◌||◌, Option, none, some, is_truthy, or_else, or_undefined,
  if◌then◌else◌, is_blank, decimal, Number, whole, other, number_of,
}
use mutell_demo.Session.{User}
use mutell_demo.Types.Tenant.{Tenant, TenantCreateRequest, TenantUpdateRequest}

-- The state of `AdminTenantsPage`; its `page` is that of `Paging`.
pub record AdminTenantsPage : Type 0 where
  pub create_open : Bool
  pub edit_open : Bool
  pub name : String
  pub slug : String
  pub contact_email : String
  pub plan_id : String
  pub editing_tenant : Option Tenant
  pub edit_name : String
  pub edit_email : String
  pub edit_phone : String
  pub edit_address : String
  pub delete_target : Option String

-- `handleCreate`, and its `onSuccess`.
unfoldable pub create_start : AdminTenantsPage → Option TenantCreateRequest
create_start p =
    if is_blank p.name || is_blank p.slug || is_blank p.contact_email
    then none
    else some (record {
      name = p.name;
      slug = p.slug;
      contact_email = p.contact_email;
      contact_phone = none;
      address = none;
      timezone = none;
      plan_id = or_undefined p.plan_id;
      slot_duration_secs = none;
    })

unfoldable pub create_finish : AdminTenantsPage → AdminTenantsPage
create_finish p = record p {
  create_open = false;
  name = "";
  slug = "";
  contact_email = "";
  plan_id = "";
}

unfoldable pub open_edit : Tenant → AdminTenantsPage → AdminTenantsPage
open_edit tenant p = record p {
  editing_tenant = some tenant;
  edit_name = tenant.name;
  edit_email = tenant.contact_email;
  edit_phone = or_else tenant.contact_phone "";
  edit_address = or_else tenant.address "";
  edit_open = true;
}

-- `handleUpdate`
unfoldable pub update_start : AdminTenantsPage → Option (String × TenantUpdateRequest)
update_start p = elim p.editing_tenant as (λ x. Option (String × TenantUpdateRequest)) [
  | none ↦ none
  | some tenant ↦ some (
    tenant.id,
    record {
      name = some p.edit_name;
      contact_email = some p.edit_email;
      contact_phone = or_undefined p.edit_phone;
      address = or_undefined p.edit_address;
      timezone = none;
      slot_duration_secs = none;
      plan_id = none;
    },
  )
]

-- `handleDelete`
unfoldable pub delete_start : AdminTenantsPage → Option String
delete_start p = elim p.delete_target as (λ x. Option String) [
  | none ↦ none
  | some target ↦ if is_truthy target then some target else none
]

-- The state of `OrganizationSettingsPage`.
pub record OrganizationForm : Type 0 where
  pub name : String
  pub contact_email : String
  pub contact_phone : String
  pub address : String
  pub slot_duration : Number

abbrev pub blank_form : OrganizationForm
blank_form = record {
  name = "";
  contact_email = "";
  contact_phone = "";
  address = "";
  slot_duration = whole 300;
}

-- The effect on the fetched tenant.
unfoldable pub load_tenant : Option Tenant → OrganizationForm → OrganizationForm
load_tenant none form = form
load_tenant (some tenant) form = record {
  name = tenant.name;
  contact_email = tenant.contact_email;
  contact_phone = or_else tenant.contact_phone "";
  address = or_else tenant.address "";
  slot_duration = whole tenant.slot_duration_secs;
}

-- `user?.tenant_id || ""`
abbrev pub own_tenant : Option User → String
own_tenant none = ""
own_tenant (some user) = or_else user.tenant_id ""

-- The body of the request that the settings and the page of one tenant make; the other fields of
-- `TenantUpdateRequest` are not sent.
pub record TenantBody : Type 0 where
  pub name : String
  pub contact_email : String
  pub contact_phone : Option String
  pub address : Option String
  pub slot_duration_secs : Number

-- `handleSubmit`
unfoldable pub save_organization : Option User → OrganizationForm → String × TenantBody
save_organization user form = (
  own_tenant user,
  record {
    name = form.name;
    contact_email = form.contact_email;
    contact_phone = or_undefined form.contact_phone;
    address = or_undefined form.address;
    slot_duration_secs = form.slot_duration;
  },
)

-- `setSlotDuration(Number(e.target.value))`
unfoldable pub type_slot_duration : String → OrganizationForm → OrganizationForm
type_slot_duration typed form = record form { slot_duration = number_of typed }

-- `String(slotDuration)`; `printed` is what JavaScript prints for a number that is not natural, by
-- the text that it was typed as.
abbrev pub number_text : (String → String) → Number → String
number_text printed (whole n) = decimal n
number_text printed (other typed) = printed typed
