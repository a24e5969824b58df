-- ===== src/Services/Terminals.antt =====
-- portal/src/services/terminals.ts: terminalService.
use mutell_demo.Prelude.{String, Option, [], ◌+++◌}
use mutell_demo.Http.{Endpoint, Method, empty, object, data_of, params_of}
use mutell_demo.Types.Query.{PageParams, page_params_object}
use mutell_demo.Types.Terminal.{
  TerminalCreateRequest, TerminalUpdateRequest, terminal_create_request_object,
  terminal_update_request_object,
}

unfoldable pub list : (params : Option PageParams) → Endpoint
list params = record {
  method = Method.get;
  path = "/terminals";
  params = params_of page_params_object params;
  body = empty;
  unwrap = data_of;
}

unfoldable pub create : (request : TerminalCreateRequest) → Endpoint
create request = record {
  method = Method.post;
  path = "/terminals";
  params = [];
  body = object (terminal_create_request_object request);
  unwrap = data_of;
}

unfoldable pub update : (terminal_id : String) (request : TerminalUpdateRequest) → Endpoint
update terminal_id request = record {
  method = Method.patch;
  path = "/terminals/" +++ terminal_id;
  params = [];
  body = object (terminal_update_request_object request);
  unwrap = data_of;
}

unfoldable pub delete : (terminal_id : String) → Endpoint
delete terminal_id = record {
  method = Method.delete;
  path = "/terminals/" +++ terminal_id;
  params = [];
  body = empty;
  unwrap = data_of;
}

unfoldable pub ping : (terminal_id : String) → Endpoint
ping terminal_id = record {
  method = Method.post;
  path = "/terminals/" +++ (terminal_id +++ "/ping");
  params = [];
  body = empty;
  unwrap = data_of;
}
