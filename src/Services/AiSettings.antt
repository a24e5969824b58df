-- ===== src/Services/AiSettings.antt =====
-- portal/src/services/ai-settings.ts: aiSettingsService.
use mutell_demo.Prelude.{String, [], ◌+++◌}
use mutell_demo.Http.{Endpoint, Method, empty, object, data_of}
use mutell_demo.Types.Ai.{
  AiConfigCreateRequest, AiConfigUpdateRequest, ai_config_create_request_object,
  ai_config_update_request_object,
}

unfoldable pub list_providers : Endpoint
list_providers = record {
  method = Method.get;
  path = "/settings/ai/providers";
  params = [];
  body = empty;
  unwrap = data_of;
}

unfoldable pub list : Endpoint
list = record {
  method = Method.get;
  path = "/settings/ai";
  params = [];
  body = empty;
  unwrap = data_of;
}

unfoldable pub create : (request : AiConfigCreateRequest) → Endpoint
create request = record {
  method = Method.post;
  path = "/settings/ai";
  params = [];
  body = object (ai_config_create_request_object request);
  unwrap = data_of;
}

unfoldable pub update : (config_id : String) (request : AiConfigUpdateRequest) → Endpoint
update config_id request = record {
  method = Method.patch;
  path = "/settings/ai/" +++ config_id;
  params = [];
  body = object (ai_config_update_request_object request);
  unwrap = data_of;
}

unfoldable pub delete : (config_id : String) → Endpoint
delete config_id = record {
  method = Method.delete;
  path = "/settings/ai/" +++ config_id;
  params = [];
  body = empty;
  unwrap = data_of;
}
