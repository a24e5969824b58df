-- ===== src/Services/AdminAiProviders.antt =====
-- portal/src/services/admin.ts: adminService.aiProviders.
use mutell_demo.Prelude.{String, [], ◌∷◌, ◌+++◌}
use mutell_demo.Http.{Endpoint, Method, str, empty, object, data_of_data}
use mutell_demo.Types.Ai.{AiProviderUpdateRequest, ai_provider_update_request_object}

unfoldable pub list : Endpoint
list = record {
  method = Method.get;
  path = "/admin/ai-providers";
  params = [];
  body = empty;
  unwrap = data_of_data;
}

unfoldable pub update : (provider_id : String) (request : AiProviderUpdateRequest) → Endpoint
update provider_id request = record {
  method = Method.patch;
  path = "/admin/ai-providers/" +++ provider_id;
  params = [];
  body = object (ai_provider_update_request_object request);
  unwrap = data_of_data;
}

unfoldable pub add_model : (provider_id : String) (model_id : String) → Endpoint
add_model provider_id model_id = record {
  method = Method.post;
  path = "/admin/ai-providers/" +++ (provider_id +++ "/models");
  params = [];
  body = object (("model_id", str model_id) ∷ []);
  unwrap = data_of_data;
}

unfoldable pub remove_model : (provider_id : String) (model_id : String) → Endpoint
remove_model provider_id model_id = record {
  method = Method.delete;
  path = "/admin/ai-providers/" +++ (provider_id +++ ("/models/" +++ model_id));
  params = [];
  body = empty;
  unwrap = data_of_data;
}
