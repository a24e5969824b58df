-- ===== src/Hooks/Aggregations.antt =====
-- portal/src/hooks/useAggregations.ts.
use mutell_demo.Prelude.{true, Option, none, [], ◌∷◌}
use mutell_demo.Types.Query.{AggregationListParams, aggregation_list_params_object}
use mutell_demo.Services.Aggregations
use mutell_demo.Hooks.{text, object_part, Query}

unfoldable pub use_aggregations : (params : Option AggregationListParams) → Query
use_aggregations params = record {
  key = text "aggregations" ∷ object_part aggregation_list_params_object params ∷ [];
  endpoint = Aggregations.list params;
  enabled = true;
  refetch_interval = none;
}
