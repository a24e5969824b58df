-- ===== src/Types/Tenant.antt =====
-- portal/src/types/tenant.ts: tenants.
-- A field that may be missing or null is an `Option`.
use mutell_demo.Prelude.{ℕ, String, Option, ◌++◌}
use mutell_demo.Http.{Object, str, num, always, maybe}
use mutell_demo.Types.{TenantStatus}

pub record Tenant : Type 0 where
  pub id : String
  pub name : String
  pub slug : String
  pub logo_url : Option String
  pub contact_email : String
  pub contact_phone : Option String
  pub address : Option String
  pub timezone : String
  pub status : TenantStatus
  pub plan_id : Option String
  pub slot_duration_secs : ℕ
  pub created_at : String
  pub updated_at : String

pub record TenantCreateRequest : Type 0 where
  pub name : String
  pub slug : String
  pub contact_email : String
  pub contact_phone : Option String
  pub address : Option String
  pub timezone : Option String
  pub plan_id : Option String
  pub slot_duration_secs : Option ℕ

-- The object that is sent.
unfoldable pub tenant_create_request_object : TenantCreateRequest → Object
tenant_create_request_object r =
    always "name" str r.name
    ++ (always "slug" str r.slug
        ++ (always "contact_email" str r.contact_email
            ++ (maybe "contact_phone" str r.contact_phone
                ++ (maybe "address" str r.address
                    ++ (maybe "timezone" str r.timezone
                        ++ (maybe "plan_id" str r.plan_id
                            ++ (maybe "slot_duration_secs" num r.slot_duration_secs)))))))

pub record TenantUpdateRequest : Type 0 where
  pub name : Option String
  pub contact_email : Option String
  pub contact_phone : Option String
  pub address : Option String
  pub timezone : Option String
  pub slot_duration_secs : Option ℕ
  pub plan_id : Option String

-- The object that is sent.
unfoldable pub tenant_update_request_object : TenantUpdateRequest → Object
tenant_update_request_object r =
    maybe "name" str r.name
    ++ (maybe "contact_email" str r.contact_email
        ++ (maybe "contact_phone" str r.contact_phone
            ++ (maybe "address" str r.address
                ++ (maybe "timezone" str r.timezone
                    ++ (maybe "slot_duration_secs" num r.slot_duration_secs
                        ++ (maybe "plan_id" str r.plan_id))))))
