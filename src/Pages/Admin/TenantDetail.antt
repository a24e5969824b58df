-- ===== src/Pages/Admin/TenantDetail.antt =====
-- One tenant, portal/src/app/(app)/admin/tenants/[id]/page.tsx.
use mutell_demo.Prelude.{
  String, Bool, true, false, Option, none, some, List, [], ◌∷◌, or_else, or_undefined,
  if◌then◌else◌, decimal, Number, whole, number_of, ◌+++◌,
}
use mutell_demo.Types.{tenant_status_text}
use mutell_demo.Types.Tenant.{Tenant}
use mutell_demo.Pages.Tenants.{TenantBody, number_text}
use mutell_demo.Screen.{Part, heading, text, bone, button, input, status_part, confirm_dialog}

-- The state of `TenantDetailPage`.
pub record TenantPage : Type 0 where
  pub delete_confirm : Bool
  pub name : String
  pub contact_email : String
  pub contact_phone : String
  pub address : String
  pub timezone : String
  pub slot_duration : Number

abbrev pub opened : TenantPage
opened = record {
  delete_confirm = false;
  name = "";
  contact_email = "";
  contact_phone = "";
  address = "";
  timezone = "";
  slot_duration = whole 300;
}

-- The effect on the fetched tenant.
unfoldable pub load : Option Tenant → TenantPage → TenantPage
load none p = p
load (some tenant) p = record p {
  name = tenant.name;
  contact_email = tenant.contact_email;
  contact_phone = or_else tenant.contact_phone "";
  address = or_else tenant.address "";
  timezone = tenant.timezone;
  slot_duration = whole tenant.slot_duration_secs;
}

-- `handleSave`, for the tenant of the path.
unfoldable pub save : String → TenantPage → String × TenantBody
save id p = (
  id,
  record {
    name = p.name;
    contact_email = p.contact_email;
    contact_phone = or_undefined p.contact_phone;
    address = or_undefined p.address;
    slot_duration_secs = p.slot_duration;
  },
)

-- Where the `onSuccess` of `handleDelete` goes.
abbrev pub tenants_path : String
tenants_path = "/admin/tenants"

-- `setSlotDuration(Number(e.target.value))`
unfoldable pub type_duration : String → TenantPage → TenantPage
type_duration typed p = record p { slot_duration = number_of typed }

pub data Click : Type 0 where
  back ask_delete submit close_delete confirm_delete : Click

pub data Field : Type 0 where
  name slug email phone address timezone duration : Field

-- The page, from its query and its two mutations.
unfoldable pub tenant_view :
    (String → String) → Bool → Option Tenant → Bool → Bool → TenantPage → List (Part Click Field)
unfolding confirm_dialog decimal
tenant_view printed is_loading none saving deleting p =
    if is_loading
    then heading "Loading..." ∷ bone ∷ []
    else heading "Not Found" ∷ text "Tenant not found" ∷ button "Go back" false back ∷ []
tenant_view printed is_loading (some tenant) saving deleting p =
    if is_loading
    then heading "Loading..." ∷ bone ∷ []
    else heading tenant.name
      ∷ button "Back" false back
      ∷ status_part (tenant_status_text tenant.status)
      ∷ button "Delete" false ask_delete
      ∷ heading "Tenant Settings"
      ∷ input "Name" name p.name false
      ∷ input "Slug" slug tenant.slug true
      ∷ input "Contact Email" email p.contact_email false
      ∷ input "Contact Phone" phone p.contact_phone false
      ∷ input "Address" address p.address false
      ∷ input "Timezone" timezone p.timezone true
      ∷ input "Slot Duration (secs)" duration (number_text printed p.slot_duration) false
      ∷ button (if saving then "Saving..." else "Save Changes") saving submit
      ∷ confirm_dialog p.delete_confirm "Delete Tenant"
          ("Are you sure you want to delete \""
            +++ (tenant.name +++ "\"? This action will soft-delete the tenant."))
          "Delete" deleting close_delete confirm_delete
