-- ===== src/Services/Slots.antt =====
-- portal/src/services/slots.ts: slotService.
use mutell_demo.Prelude.{String, Option, [], ◌+++◌}
use mutell_demo.Http.{Endpoint, Method, empty, object, data_of, params_of}
use mutell_demo.Types.Slot.{
  BulkReEvaluateRequest, SlotListParams, bulk_re_evaluate_request_object, slot_list_params_object,
}

unfoldable pub list : (params : Option SlotListParams) → Endpoint
list params = record {
  method = Method.get;
  path = "/slots";
  params = params_of slot_list_params_object params;
  body = empty;
  unwrap = data_of;
}

unfoldable pub get : (slot_id : String) → Endpoint
get slot_id = record {
  method = Method.get;
  path = "/slots/" +++ slot_id;
  params = [];
  body = empty;
  unwrap = data_of;
}

unfoldable pub get_evaluation : (slot_id : String) → Endpoint
get_evaluation slot_id = record {
  method = Method.get;
  path = "/evaluations/" +++ slot_id;
  params = [];
  body = empty;
  unwrap = data_of;
}

unfoldable pub re_evaluate : (slot_id : String) → Endpoint
re_evaluate slot_id = record {
  method = Method.post;
  path = "/slots/" +++ (slot_id +++ "/re-evaluate");
  params = [];
  body = empty;
  unwrap = data_of;
}

unfoldable pub bulk_re_evaluate : (request : BulkReEvaluateRequest) → Endpoint
bulk_re_evaluate request = record {
  method = Method.post;
  path = "/slots/bulk-re-evaluate";
  params = [];
  body = object (bulk_re_evaluate_request_object request);
  unwrap = data_of;
}
