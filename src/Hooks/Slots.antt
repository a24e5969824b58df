-- ===== src/Hooks/Slots.antt =====
-- portal/src/hooks/useSlots.ts.
use mutell_demo.Prelude.{String, true, Option, none, [], ◌∷◌, is_truthy}
use mutell_demo.Browser.{success, failure}
use mutell_demo.Types.Slot.{BulkReEvaluateRequest, SlotListParams, slot_list_params_object}
use mutell_demo.Services.Slots
use mutell_demo.Hooks.{text, object_part, Query, Mutation, invalidate, notify}

unfoldable pub use_slot_list : (params : Option SlotListParams) → Query
use_slot_list params = record {
  key = text "slots" ∷ object_part slot_list_params_object params ∷ [];
  endpoint = Slots.list params;
  enabled = true;
  refetch_interval = none;
}

unfoldable pub use_slot_detail : (slot_id : String) → Query
use_slot_detail slot_id = record {
  key = text "slots" ∷ text slot_id ∷ [];
  endpoint = Slots.get slot_id;
  enabled = is_truthy slot_id;
  refetch_interval = none;
}

unfoldable pub use_re_evaluate : (slot_id : String) → Mutation (Unit {0})
use_re_evaluate slot_id = record {
  endpoint = Slots.re_evaluate slot_id;
  on_success = λ reply.
      invalidate (text "slots" ∷ text slot_id ∷ [])
      ∷ invalidate (text "slots" ∷ [])
      ∷ notify (success "Re-evaluation triggered")
      ∷ [];
  on_error = λ e. notify (failure "Failed to trigger re-evaluation") ∷ [];
}

unfoldable pub use_bulk_re_evaluate : (request : BulkReEvaluateRequest) → Mutation (Unit {0})
use_bulk_re_evaluate request = record {
  endpoint = Slots.bulk_re_evaluate request;
  on_success = λ reply.
      invalidate (text "slots" ∷ []) ∷ notify (success "Bulk re-evaluation triggered") ∷ [];
  on_error = λ e. notify (failure "Failed to trigger bulk re-evaluation") ∷ [];
}

unfoldable pub use_evaluation : (slot_id : String) → Query
use_evaluation slot_id = record {
  key = text "evaluations" ∷ text slot_id ∷ [];
  endpoint = Slots.get_evaluation slot_id;
  enabled = is_truthy slot_id;
  refetch_interval = none;
}
