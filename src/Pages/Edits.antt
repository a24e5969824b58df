-- ===== src/Pages/Edits.antt =====
-- What a change in a dialog of portal/src/app/(app)/terminals/page.tsx, admin/tenants/page.tsx or
-- settings/organization/page.tsx leaves behind, for a server that takes over the fields of a PATCH
-- and keeps all others.
mod Tests
use mutell_demo.Prelude.{
  String, Bool, ◌&&◌, ◌||◌, Option, none, some, is_truthy, or_else, coalesce, if◌then◌else◌, str_eq,
  whole, other,
}
use mutell_demo.Session.{User}
use mutell_demo.Types.Terminal.{Terminal, TerminalUpdateRequest}
use mutell_demo.Types.Tenant.{Tenant, TenantUpdateRequest}
use mutell_demo.Pages.Terminals
use mutell_demo.Pages.Tenants
use mutell_demo.Pages.Tenants.{TenantBody}

-- A field that is given wins.
abbrev pub kept : Option String → Option String → Option String
kept none old = old
kept (some new) old = some new

abbrev pub patched_terminal : TerminalUpdateRequest → Terminal → Terminal
patched_terminal r t = record t {
  name = coalesce r.name t.name;
  description = kept r.description t.description;
  location = kept r.location t.location;
}

abbrev pub patched_tenant : TenantUpdateRequest → Tenant → Tenant
patched_tenant r t = record t {
  name = coalesce r.name t.name;
  contact_email = coalesce r.contact_email t.contact_email;
  contact_phone = kept r.contact_phone t.contact_phone;
  address = kept r.address t.address;
  timezone = coalesce r.timezone t.timezone;
  slot_duration_secs = coalesce r.slot_duration_secs t.slot_duration_secs;
  plan_id = kept r.plan_id t.plan_id;
}

-- What the text in a field for an optional value comes to.
abbrev pub typed_over : String → Option String → Option String
typed_over typed old = if is_truthy typed then some typed else old

-- The server's `update_tenant`, once the body has passed its schema: who may change the tenant with
-- this id, and what becomes of that tenant.
abbrev pub may_update : User → String → Bool
may_update u id =
    str_eq u.role "super_admin"
    || (str_eq u.role "tenant_admin" && str_eq (or_else u.tenant_id "None") id)

abbrev pub update_tenant : User → String → TenantUpdateRequest → Tenant → Option Tenant
update_tenant u id r t = if may_update u id then some (patched_tenant r t) else none

-- The body of the two forms with a length of slots, if that is a natural number.
abbrev pub as_request : TenantBody → Option TenantUpdateRequest
as_request b = elim b.slot_duration_secs as (λ x. Option TenantUpdateRequest) [
  | other typed ↦ none
  | whole n ↦ some (record {
    name = some b.name;
    contact_email = some b.contact_email;
    contact_phone = b.contact_phone;
    address = b.address;
    timezone = none;
    slot_duration_secs = some n;
    plan_id = none;
  })
]
