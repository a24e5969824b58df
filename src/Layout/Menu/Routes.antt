-- ===== src/Layout/Menu/Routes.antt =====
-- The pages of the portal that have one path each, by the folders of portal/src/app, and where a path
-- leads through portal/src/app/page.tsx and the layouts.
use mutell_demo.Prelude.{String, Option, none, some, List, [], ◌∷◌, ◌≡◌, str_eq, if◌then◌else◌}
use mutell_demo.Session.{Session}
use mutell_demo.Access.{View, content, home, app_layout, admin_page, includes}

-- The folders of (app) and of (app)/admin that hold a page.
abbrev pub app_pages : List String
app_pages =
    "/dashboard" ∷ "/slots" ∷ "/analytics" ∷ "/reports" ∷ "/terminals" ∷ "/team" ∷ "/profile"
    ∷ "/settings" ∷ "/settings/ai" ∷ "/settings/billing" ∷ "/settings/notifications"
    ∷ "/settings/organization" ∷ "/settings/security" ∷ []

abbrev pub admin_pages : List String
admin_pages =
    "/admin/dashboard" ∷ "/admin/tenants" ∷ "/admin/plans" ∷ "/admin/ai-providers" ∷ "/admin/users"
    ∷ "/admin/audit-log" ∷ "/admin/health" ∷ "/admin/settings" ∷ []

-- What is at a path, if there is a page.
abbrev pub page_at : String → Session → Option View
page_at path s =
    if str_eq path "/"
    then some (home s)
    else if includes admin_pages path
    then some (admin_page s)
    else if includes app_pages path
    then some (app_layout s)
    else none

abbrev pub followed : Session → Option View → Option View
followed s none = none
followed s (some v) = elim v.redirect as (λ x. Option View) [
  | none ↦ some v
  | some to ↦ page_at to s
]

-- There is a page at the path, and the layouts show it, after one redirect at most.
abbrev pub IsShown : Session → String → Type 0
IsShown s path = followed s (page_at path s) ≡ some (record { screen = content; redirect = none })
