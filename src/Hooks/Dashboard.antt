-- ===== src/Hooks/Dashboard.antt =====
-- portal/src/hooks/useDashboard.ts.
use mutell_demo.Prelude.{true, none, [], ◌∷◌}
use mutell_demo.Services.Dashboard
use mutell_demo.Hooks.{text, Query}

unfoldable pub use_dashboard_stats : Query
use_dashboard_stats = record {
  key = text "dashboard" ∷ text "stats" ∷ [];
  endpoint = Dashboard.get_stats;
  enabled = true;
  refetch_interval = none;
}
