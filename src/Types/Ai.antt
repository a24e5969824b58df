-- ===== src/Types/Ai.antt =====
-- portal/src/types/ai.ts: AI providers and configurations.
-- A field that may be missing or null is an `Option`.
use mutell_demo.Prelude.{ℕ, String, Bool, Option, List, ◌++◌}
use mutell_demo.Http.{Object, str, bool, always, maybe}

pub record AiConfig : Type 0 where
  pub id : String
  pub provider_id : String
  pub provider_slug : String
  pub provider_name : String
  pub model_id : String
  pub is_default : Bool
  pub custom_prompt : Option String
  pub created_at : String

pub record AiConfigListResponse : Type 0 where
  pub items : List AiConfig
  pub total : ℕ

pub record AiConfigCreateRequest : Type 0 where
  pub provider_id : String
  pub model_id : String
  pub api_key : Option String
  pub is_default : Option Bool
  pub custom_prompt : Option String

-- The object that is sent.
unfoldable pub ai_config_create_request_object : AiConfigCreateRequest → Object
ai_config_create_request_object r =
    always "provider_id" str r.provider_id
    ++ (always "model_id" str r.model_id
        ++ (maybe "api_key" str r.api_key
            ++ (maybe "is_default" bool r.is_default
                ++ (maybe "custom_prompt" str r.custom_prompt))))

pub record AiConfigUpdateRequest : Type 0 where
  pub model_id : Option String
  pub api_key : Option String
  pub is_default : Option Bool
  pub custom_prompt : Option String

-- The object that is sent.
unfoldable pub ai_config_update_request_object : AiConfigUpdateRequest → Object
ai_config_update_request_object r =
    maybe "model_id" str r.model_id
    ++ (maybe "api_key" str r.api_key
        ++ (maybe "is_default" bool r.is_default ++ (maybe "custom_prompt" str r.custom_prompt)))

pub record AiProvider : Type 0 where
  pub id : String
  pub slug : String
  pub display_name : String
  pub is_active : Bool
  pub base_url : Option String
  pub api_key : Option String
  pub supported_models : Option (List String)

pub record AiProviderOption : Type 0 where
  pub id : String
  pub slug : String
  pub display_name : String
  pub supported_models : List String

pub record AiProviderUpdateRequest : Type 0 where
  pub display_name : Option String
  pub is_active : Option Bool
  pub api_key : Option String
  pub base_url : Option String

-- The object that is sent.
unfoldable pub ai_provider_update_request_object : AiProviderUpdateRequest → Object
ai_provider_update_request_object r =
    maybe "display_name" str r.display_name
    ++ (maybe "is_active" bool r.is_active
        ++ (maybe "api_key" str r.api_key ++ (maybe "base_url" str r.base_url)))
