-- ===== src/Access.antt =====
-- portal/src/lib/hooks.ts: which role may do what; and the layouts that act on it:
-- portal/src/app/page.tsx, portal/src/app/(app)/layout.tsx, portal/src/app/(app)/admin/layout.tsx.
-- A hook reads the user of the context, which is an argument here.
pub mod Roles
pub mod Guards
mod Tests
use mutell_demo.Prelude.{
  String, Bool, true, false, not, ◌||◌, Option, none, some, List, [], ◌∷◌, any, str_eq,
  if◌then◌else◌, is_some,
}
use mutell_demo.Session.{User, Session}

-- `user?.role === role`
abbrev has_role : Option User → String → Bool
has_role none role = false
has_role (some u) role = str_eq u.role role

-- `roles.includes(role)`
abbrev pub includes : List String → String → Bool
includes roles role = any (λ r. str_eq r role) roles

abbrev role_among : List String → Option User → Bool
role_among roles none = false
role_among roles (some u) = includes roles u.role

unfoldable pub is_super_admin : Option User → Bool
is_super_admin user = has_role user "super_admin"

unfoldable pub is_tenant_admin : Option User → Bool
is_tenant_admin user = has_role user "super_admin" || has_role user "tenant_admin"

unfoldable pub can_manage_team : Option User → Bool
can_manage_team = role_among ("super_admin" ∷ "tenant_admin" ∷ "manager" ∷ [])

unfoldable pub can_manage_terminals : Option User → Bool
can_manage_terminals = role_among ("super_admin" ∷ "tenant_admin" ∷ [])

unfoldable pub can_manage_ai : Option User → Bool
can_manage_ai = role_among ("super_admin" ∷ "tenant_admin" ∷ [])

unfoldable pub can_create_notes : Option User → Bool
can_create_notes none = false
can_create_notes (some u) = not (str_eq u.role "viewer")

unfoldable pub can_manage_reports : Option User → Bool
can_manage_reports = role_among ("super_admin" ∷ "tenant_admin" ∷ "manager" ∷ [])

-- What a layout puts on the screen, and where its effect sends the browser.
pub data Screen : Type 0 where
  spinner blank content : Screen

pub record View : Type 0 where
  pub screen : Screen
  pub redirect : Option String

-- `Home`: always a spinner, until its effect leaves the page.
unfoldable pub home : Session → View
home s = record {
  screen = spinner;
  redirect = if s.is_loading then none else elim s.user [
    | none ↦ some "/login"
    | some u ↦ some (if str_eq u.role "super_admin" then "/admin/dashboard" else "/dashboard")
  ];
}

-- `AppLayout`.
unfoldable pub app_layout : Session → View
app_layout s =
    if s.is_loading
    then record { screen = spinner; redirect = none }
    else if not (is_some s.user)
    then record { screen = blank; redirect = some "/login" }
    else record { screen = content; redirect = none }

-- `AdminLayout`.
unfoldable pub admin_layout : Session → View
unfolding is_super_admin
admin_layout s =
    if not (is_super_admin s.user)
    then record { screen = blank; redirect = some "/dashboard" }
    else record { screen = content; redirect = none }

-- A page under (app)/admin stands inside both layouts; the inner one is there only if the outer one
-- shows its content.
unfoldable pub admin_page : Session → View
unfolding app_layout admin_layout
admin_page s = elim (app_layout s).screen [ content ↦ admin_layout s | _ ↦ app_layout s ]
