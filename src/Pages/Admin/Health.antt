-- ===== src/Pages/Admin/Health.antt =====
-- The state of the services, portal/src/app/(app)/admin/health/page.tsx, and the numbers of
-- portal/src/app/(app)/admin/dashboard/page.tsx.
use mutell_demo.Prelude.{
  ℕ, String, Bool, ◌||◌, Option, none, some, List, [], ◌∷◌, ◌++◌, str_eq, if◌then◌else◌,
}
use mutell_demo.Types.Statistics.{HealthStatus}
use mutell_demo.Format.{Locale, format_number}
use mutell_demo.Screen.Colors.{Color, success, warning, error}
use mutell_demo.Screen.{Part, heading, text, stat, badge, row, bones, status_part}

-- `statusColor`
unfoldable pub status_color : String → Color
status_color s =
    if str_eq s "connected" || str_eq s "healthy" || str_eq s "ok"
    then success
    else if str_eq s "degraded" || str_eq s "unknown"
    then warning
    else error

-- The status that the badge of a service is given.
unfoldable pub badge_status : String → String
badge_status s =
    if str_eq s "connected" then "active" else if str_eq s "unknown" then "pending" else s

-- `services`
unfoldable pub services : Option HealthStatus → List (String × String)
services none = []
services (some health) =
    ("Database", health.database)
    ∷ ("Cache (Redis)", health.redis)
    ∷ ("Celery Workers", health.workers)
    ∷ []

-- The cards; the dot, and the icon in the same colour, are a badge without a text.
unfoldable pub service_cards : List (String × String) → List (Part (Unit {0}) (Unit {0}))
unfolding status_color badge_status
service_cards [] = []
service_cards ((name, status) ∷ ss) =
    row name
    ∷ text name
    ∷ status_part (badge_status status)
    ∷ badge (status_color status) ""
    ∷ service_cards ss

unfoldable pub health_view : Bool → Option HealthStatus → List (Part (Unit {0}) (Unit {0}))
unfolding services service_cards
health_view is_loading health =
    heading "System Health"
    ∷ ((if is_loading then bones 3 else service_cards (services health))
        ++ text "Auto-refreshes every 10 seconds" ∷ [])

abbrev total_text : Locale → Option ℕ → String
total_text l none = "..."
total_text l (some n) = format_number l n

-- The dashboard of the administrators, from the totals of its four queries.
unfoldable pub admin_dashboard :
    Locale → Option ℕ → Option ℕ → Option ℕ → Option ℕ → List (Part (Unit {0}) (Unit {0}))
admin_dashboard l tenants users plans providers =
    heading "Admin Dashboard"
    ∷ heading "Platform Administration"
    ∷ text "Manage your platform, tenants, and configuration."
    ∷ stat "Total Tenants" (total_text l tenants)
    ∷ stat "Total Users" (total_text l users)
    ∷ stat "Plans" (total_text l plans)
    ∷ stat "AI Providers" (total_text l providers)
    ∷ heading "Platform Overview"
    ∷ text "Use the sidebar to manage tenants, plans, AI providers, users, and system health."
    ∷ []
