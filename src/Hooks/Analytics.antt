-- ===== src/Hooks/Analytics.antt =====
-- portal/src/hooks/useAnalyticsSummary.ts.
use mutell_demo.Prelude.{true, Option, none, [], ◌∷◌}
use mutell_demo.Types.Query.{AnalyticsSummaryParams, analytics_summary_params_object}
use mutell_demo.Services.Analytics
use mutell_demo.Hooks.{text, object_part, Query}

unfoldable pub use_analytics_summary : (params : Option AnalyticsSummaryParams) → Query
use_analytics_summary params = record {
  key = text "analytics-summary" ∷ object_part analytics_summary_params_object params ∷ [];
  endpoint = Analytics.summary params;
  enabled = true;
  refetch_interval = none;
}
