-- ===== src/Access/Roles.antt =====
-- The hooks of portal/src/lib/hooks.ts against one scale of ranks.
use mutell_demo.Prelude.{
  ℕ, ◌≡◌, ◌≢◌, refl, Bool, true, false, Option, none, some, String, arith, leb, eq_iff,
}
use mutell_demo.Types.{UserRole, super_admin, tenant_admin, manager, viewer, role_text}
use mutell_demo.Session.{User}
use mutell_demo.Access.{
  is_super_admin, is_tenant_admin, can_manage_team, can_manage_terminals, can_manage_ai,
  can_create_notes, can_manage_reports,
}

-- A name for each hook.
pub data Gate : Type 0 where
  super_admins tenant_admins team terminals ai notes reports : Gate

pub allowed : Gate → Option User → Bool
allowed super_admins = is_super_admin
allowed tenant_admins = is_tenant_admin
allowed team = can_manage_team
allowed terminals = can_manage_terminals
allowed ai = can_manage_ai
allowed notes = can_create_notes
allowed reports = can_manage_reports

abbrev pub rank : UserRole → ℕ
rank viewer = 0
rank manager = 1
rank tenant_admin = 2
rank super_admin = 3

-- The lowest rank that passes.
abbrev pub threshold : Gate → ℕ
threshold super_admins = 3
threshold tenant_admins = 2
threshold team = 1
threshold terminals = 2
threshold ai = 2
threshold notes = 1
threshold reports = 1

-- The user `u` in the role `r`.
abbrev pub in_role : User → UserRole → Option User
in_role u r = some (record u { role = role_text r })

-- Each hook lets a role in exactly if its rank reaches the hook's threshold, so whatever a role
-- may do, every higher role may do too; and with nobody signed in each hook says no.
pub allowed_iff_rank :
    (g : Gate) (u : User) (r : UserRole)
    → (allowed g (in_role u r) ≡ leb (threshold g) (rank r)) × (allowed g none ≡ false)
unfolding allowed is_super_admin is_tenant_admin can_manage_team can_manage_terminals can_manage_ai
    can_create_notes can_manage_reports
allowed_iff_rank super_admins u viewer = (refl, refl)
allowed_iff_rank super_admins u manager = (refl, refl)
allowed_iff_rank super_admins u _ = (refl, refl)
allowed_iff_rank tenant_admins u viewer = (refl, refl)
allowed_iff_rank tenant_admins u _ = (refl, refl)
allowed_iff_rank team u viewer = (refl, refl)
allowed_iff_rank team u _ = (refl, refl)
allowed_iff_rank terminals u viewer = (refl, refl)
allowed_iff_rank terminals u _ = (refl, refl)
allowed_iff_rank ai u viewer = (refl, refl)
allowed_iff_rank ai u _ = (refl, refl)
allowed_iff_rank notes u viewer = (refl, refl)
allowed_iff_rank notes u _ = (refl, refl)
allowed_iff_rank reports u viewer = (refl, refl)
allowed_iff_rank reports u _ = (refl, refl)

abbrev pub IsUnknown : String → Type 0
IsUnknown role = (r : UserRole) → role ≢ role_text r

allowed_unknown_gate :
    (g : Gate) (u : User) → IsUnknown u.role → g ≢ notes → allowed g (some u) ≡ false
unfolding allowed is_super_admin is_tenant_admin can_manage_team can_manage_terminals can_manage_ai
    can_create_notes can_manage_reports
allowed_unknown_gate notes u h other = absurd (other refl)
allowed_unknown_gate _ u h other = ground (
  arith,
  h super_admin,
  h tenant_admin,
  h manager,
  eq_iff u.role "super_admin",
  eq_iff u.role "tenant_admin",
  eq_iff "super_admin" u.role,
  eq_iff "tenant_admin" u.role,
  eq_iff "manager" u.role,
)

-- A role that the portal does not know passes no hook but the one for notes, which it passes.
pub allowed_unknown :
    (u : User)
    → IsUnknown u.role
    → (allowed notes (some u) ≡ true) × ((g : Gate) → g ≢ notes → allowed g (some u) ≡ false)
unfolding allowed is_super_admin is_tenant_admin can_manage_team can_manage_terminals can_manage_ai
    can_create_notes can_manage_reports
allowed_unknown u h =
    (ground (arith, h viewer, eq_iff u.role "viewer"), λ g. allowed_unknown_gate g u h)
