-- ===== src/Hooks/Plans.antt =====
-- portal/src/hooks/usePlans.ts.
use mutell_demo.Prelude.{String, true, Option, none, [], ◌∷◌, is_truthy}
use mutell_demo.Types.Query.{PageParams, page_params_object}
use mutell_demo.Services.Plans
use mutell_demo.Hooks.{text, object_part, Query}

unfoldable pub use_plan_list : (params : Option PageParams) → Query
use_plan_list params = record {
  key = text "plans" ∷ object_part page_params_object params ∷ [];
  endpoint = Plans.list params;
  enabled = true;
  refetch_interval = none;
}

unfoldable pub use_plan_detail : (plan_id : String) → Query
use_plan_detail plan_id = record {
  key = text "plans" ∷ text plan_id ∷ [];
  endpoint = Plans.get plan_id;
  enabled = is_truthy plan_id;
  refetch_interval = none;
}
