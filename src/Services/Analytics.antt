-- ===== src/Services/Analytics.antt =====
-- portal/src/services/analytics.ts: analyticsService.
use mutell_demo.Prelude.{Option}
use mutell_demo.Http.{Endpoint, Method, empty, data_of, params_of}
use mutell_demo.Types.Query.{
  AggregationListParams, AnalyticsSummaryParams, aggregation_list_params_object,
  analytics_summary_params_object,
}

unfoldable pub summary : (params : Option AnalyticsSummaryParams) → Endpoint
summary params = record {
  method = Method.get;
  path = "/analytics/summary";
  params = params_of analytics_summary_params_object params;
  body = empty;
  unwrap = data_of;
}

unfoldable pub aggregations : (params : Option AggregationListParams) → Endpoint
aggregations params = record {
  method = Method.get;
  path = "/aggregations";
  params = params_of aggregation_list_params_object params;
  body = empty;
  unwrap = data_of;
}
