-- ===== src/Pages/Edits/Tests.antt =====
-- Changes to one terminal and one tenant.
use mutell_demo.Prelude.{false, none, some}
use mutell_demo.Types.{TerminalStatus, TenantStatus}
use mutell_demo.Session.{User}
use mutell_demo.Types.Terminal.{Terminal}
use mutell_demo.Types.Tenant.{Tenant, TenantUpdateRequest}
use mutell_demo.Pages.Terminals
use mutell_demo.Pages.Terminals.{TerminalsPage}
use mutell_demo.Pages.Tenants
use mutell_demo.Pages.Tenants.{AdminTenantsPage, OrganizationForm}

abbrev till : Terminal
till = record {
  id = "t1";
  tenant_id = "shop";
  name = "Till";
  description = some "by the door";
  api_key_prefix = "mk_";
  location = none;
  status = TerminalStatus.active;
  last_seen_at = none;
  created_at = "2025-01-01";
}

abbrev terminals : TerminalsPage
terminals = record {
  create_open = false;
  edit_open = false;
  name = "";
  description = "";
  location = "";
  revealed_key = none;
  editing_terminal = none;
  edit_name = "";
  edit_desc = "";
  edit_loc = "";
  delete_target = none;
}

abbrev shop : Tenant
shop = record {
  id = "shop";
  name = "Shop";
  slug = "shop";
  logo_url = none;
  contact_email = "a@shop.example";
  contact_phone = some "123";
  address = none;
  timezone = "UTC";
  status = TenantStatus.active;
  plan_id = none;
  slot_duration_secs = 300;
  created_at = "2025-01-01";
  updated_at = "2025-01-01";
}

abbrev tenants : AdminTenantsPage
tenants = record {
  create_open = false;
  edit_open = false;
  name = "";
  slug = "";
  contact_email = "";
  plan_id = "";
  editing_tenant = none;
  edit_name = "";
  edit_email = "";
  edit_phone = "";
  edit_address = "";
  delete_target = none;
}

abbrev eve : User
eve = record {
  id = "u1";
  email = "eve@shop.example";
  full_name = "Eve";
  role = "tenant_admin";
  tenant_id = some "shop";
  avatar_url = none;
}

abbrev root : User
root = record eve { id = "u0"; role = "super_admin"; tenant_id = none }

abbrev mo : User
mo = record eve { id = "u2"; role = "manager" }

abbrev new_plan : TenantUpdateRequest
new_plan = record {
  name = none;
  contact_email = none;
  contact_phone = none;
  address = none;
  timezone = none;
  slot_duration_secs = none;
  plan_id = some "p1";
}
