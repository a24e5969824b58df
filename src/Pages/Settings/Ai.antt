-- ===== src/Pages/Settings/Ai.antt =====
-- The AI configurations of a tenant, portal/src/app/(app)/settings/ai/page.tsx.
pub mod View
pub mod Tests
use mutell_demo.Prelude.{
  String, Bool, true, false, not, ◌||◌, Option, none, some, List, [], ◌∷◌, ◌++◌, map, is_empty,
  is_truthy, is_some, or_else, or_undefined, if◌then◌else◌, str_eq, ◌+++◌,
}
use mutell_demo.Types.Ai.{AiConfig, AiConfigCreateRequest, AiConfigUpdateRequest, AiProviderOption}

-- The state of `AISettingsPage`.
pub record AiPage : Type 0 where
  pub add_open : Bool
  pub edit_open : Bool
  pub delete_target : Option String
  pub provider_id : String
  pub model_id : String
  pub is_default : Bool
  pub custom_prompt : String
  pub editing_config : Option AiConfig
  pub edit_model_id : String
  pub edit_is_default : Bool
  pub edit_custom_prompt : String

-- `providers.find((p) => p.id === id)?.supported_models || []`
unfoldable pub models_for : String → List AiProviderOption → List String
models_for id [] = []
models_for id (p ∷ ps) = if str_eq p.id id then p.supported_models else models_for id ps

-- `modelOptions` and `editModelOptions`
unfoldable pub model_options : List String → List (String × String)
model_options models =
    if is_empty models
    then ("", "No models available") ∷ []
    else map (λ (m : String). (m, m)) models

-- `providerOptions`, and what the select shows where there are none.
unfoldable pub provider_options : List AiProviderOption → List (String × String)
provider_options providers =
    if is_empty providers
    then ("", "No providers available") ∷ []
    else map (λ (p : AiProviderOption). (p.id, p.display_name)) providers

-- `setProviderId`: the model stays what it was.
unfoldable pub set_provider : String → AiPage → AiPage
set_provider id p = record p { provider_id = id }

unfoldable pub set_model : String → AiPage → AiPage
set_model id p = record p { model_id = id }

-- `handleCreate`, and its `onSuccess`.
unfoldable pub create_start : AiPage → Option AiConfigCreateRequest
create_start p =
    if not (is_truthy p.provider_id) || not (is_truthy p.model_id)
    then none
    else some (record {
      provider_id = p.provider_id;
      model_id = p.model_id;
      api_key = none;
      is_default = some p.is_default;
      custom_prompt = or_undefined p.custom_prompt;
    })

unfoldable pub create_finish : AiPage → AiPage
create_finish p = record p {
  add_open = false;
  provider_id = "";
  model_id = "";
  is_default = false;
  custom_prompt = "";
}

unfoldable pub open_edit : AiConfig → AiPage → AiPage
open_edit config p = record p {
  editing_config = some config;
  edit_model_id = config.model_id;
  edit_is_default = config.is_default;
  edit_custom_prompt = or_else config.custom_prompt "";
  edit_open = true;
}

-- `handleUpdate`
unfoldable pub update_start : AiPage → Option (String × AiConfigUpdateRequest)
update_start p = elim p.editing_config as (λ x. Option (String × AiConfigUpdateRequest)) [
  | none ↦ none
  | some config ↦ some (
    config.id,
    record {
      model_id = some p.edit_model_id;
      api_key = none;
      is_default = some p.edit_is_default;
      custom_prompt = or_undefined p.edit_custom_prompt;
    },
  )
]

-- `handleDelete`, and its `onSuccess`.
unfoldable pub delete_start : AiPage → Option String
delete_start p = elim p.delete_target as (λ x. Option String) [
  | none ↦ none
  | some target ↦ if is_truthy target then some target else none
]

unfoldable pub delete_finish : AiPage → AiPage
delete_finish p = record p { delete_target = none }
