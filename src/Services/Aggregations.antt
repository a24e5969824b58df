-- ===== src/Services/Aggregations.antt =====
-- portal/src/services/aggregations.ts: aggregationService.
use mutell_demo.Prelude.{Option}
use mutell_demo.Http.{Endpoint, Method, empty, data_of, params_of}
use mutell_demo.Types.Query.{AggregationListParams, aggregation_list_params_object}

unfoldable pub list : (params : Option AggregationListParams) → Endpoint
list params = record {
  method = Method.get;
  path = "/aggregations";
  params = params_of aggregation_list_params_object params;
  body = empty;
  unwrap = data_of;
}
