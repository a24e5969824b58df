-- ===== src/Pages/Admin/Providers.antt =====
-- The providers of models, portal/src/app/(app)/admin/ai-providers/page.tsx.
pub mod Tests
use mutell_demo.Prelude.{
  String, Bool, true, false, not, ◌||◌, Option, none, some, List, [], ◌∷◌, ◌++◌, is_empty, or_else,
  if◌then◌else◌, is_blank, is_some, trim, ◌+++◌,
}
use mutell_demo.Browser.{Toast, success}
use mutell_demo.Types.Ai.{AiProvider, AiProviderUpdateRequest}
use mutell_demo.Screen.{
  Part, heading, text, button, menu, input, Item, row, chips, modal, status_part, listing,
}

-- The state of `AIProvidersPage`.
pub record ProvidersPage : Type 0 where
  pub edit_open : Bool
  pub models_open : Bool
  pub editing_provider : Option AiProvider
  pub edit_name : String
  pub new_model : String
  pub model_provider : Option AiProvider
  pub api_key_input : String

unfoldable pub open_edit : AiProvider → ProvidersPage → ProvidersPage
open_edit provider p = record p {
  editing_provider = some provider;
  edit_name = provider.display_name;
  edit_open = true;
}

abbrev no_change : AiProviderUpdateRequest
no_change = record { display_name = none; is_active = none; api_key = none; base_url = none }

-- `handleUpdate`
unfoldable pub update_start : ProvidersPage → Option (String × AiProviderUpdateRequest)
update_start p = elim p.editing_provider as (λ x. Option (String × AiProviderUpdateRequest)) [
  | none ↦ none
  | some provider ↦ some (provider.id, record no_change { display_name = some p.edit_name })
]

unfoldable pub update_finish : ProvidersPage → ProvidersPage
update_finish p = record p { edit_open = false }

-- `toggleActive`
unfoldable pub toggle_active : AiProvider → String × AiProviderUpdateRequest
toggle_active provider =
    (provider.id, record no_change { is_active = some (not provider.is_active) })

-- `openModelManager`
unfoldable pub open_models : AiProvider → ProvidersPage → ProvidersPage
open_models provider p = record p {
  model_provider = some provider;
  new_model = "";
  models_open = true;
}

-- `handleAddModel`: the provider and the model that the request names.
unfoldable pub add_model_start : ProvidersPage → Option (String × String)
add_model_start p =
    if is_blank p.new_model
    then none
    else elim p.model_provider as (λ x. Option (String × String)) [
      | none ↦ none
      | some provider ↦ some (provider.id, trim p.new_model)
    ]

-- Its `onSuccess`, with the answer, if there is one.
unfoldable pub add_model_finish : Option AiProvider → ProvidersPage → ProvidersPage
add_model_finish none p = record p { new_model = "" }
add_model_finish (some updated) p = record p { new_model = ""; model_provider = some updated }

-- `handleRemoveModel`, and its `onSuccess`.
unfoldable pub remove_model_start : String → ProvidersPage → Option (String × String)
remove_model_start model_id p = elim p.model_provider as (λ x. Option (String × String)) [
  | none ↦ none
  | some provider ↦ some (provider.id, model_id)
]

unfoldable pub remove_model_finish : Option AiProvider → ProvidersPage → ProvidersPage
remove_model_finish none p = p
remove_model_finish (some updated) p = record p { model_provider = some updated }

-- `handleSaveApiKey`, and its `onSuccess`.
unfoldable pub save_api_key_start : ProvidersPage → Option (String × AiProviderUpdateRequest)
save_api_key_start p =
    if is_blank p.api_key_input
    then none
    else elim p.editing_provider as (λ x. Option (String × AiProviderUpdateRequest)) [
      | none ↦ none
      | some provider ↦
          some (provider.id, record no_change { api_key = some (trim p.api_key_input) })
    ]

unfoldable pub save_api_key_finish : ProvidersPage → ProvidersPage × Toast
save_api_key_finish p = (record p { api_key_input = "" }, success "API key saved")

pub data Click : Type 0 where
  close_edit update save_api_key close_models add_model : Click
  remove_model : String → Click
  edit models toggle : AiProvider → Click

pub data Field : Type 0 where
  slug display_name api_key model : Field

abbrev slug_of : Option AiProvider → String
slug_of none = ""
slug_of (some provider) = provider.slug

abbrev name_of : Option AiProvider → String
name_of none = ""
name_of (some provider) = provider.display_name

-- `provider?.supported_models`, where there are any.
abbrev models_of : Option AiProvider → List String
models_of none = []
models_of (some provider) = elim provider.supported_models [ none ↦ [] | some ids ↦ ids ]

unfoldable pub edit_dialog : Bool → ProvidersPage → List (Part Click Field)
unfolding modal
edit_dialog busy p = modal p.edit_open close_edit (
    heading "Edit AI Provider"
    ∷ input "Slug" slug (slug_of p.editing_provider) true
    ∷ input "Display Name" display_name p.edit_name false
    ∷ input "Provider API Key" api_key p.api_key_input false
    ∷ button "Save" (is_blank p.api_key_input) save_api_key
    ∷ text "Used by all tenants who configure this provider"
    ∷ button (if busy then "Saving..." else "Save") busy update
    ∷ button "Cancel" false close_edit
    ∷ [])

-- The models of the provider, each with its button.
unfoldable pub model_rows : List String → List (Part Click Field)
model_rows [] = []
model_rows (m ∷ ms) = row m ∷ text m ∷ button "Remove" false (remove_model m) ∷ model_rows ms

unfoldable pub models_dialog : ProvidersPage → List (Part Click Field)
unfolding modal model_rows
models_dialog p = modal p.models_open close_models (
    heading ("Models — " +++ name_of p.model_provider)
    ∷ ((if is_empty (models_of p.model_provider)
          then text "No models configured for this provider." ∷ []
          else model_rows (models_of p.model_provider))
        ++ input "" model p.new_model false
          ∷ button "Add" (is_blank p.new_model) add_model
          ∷ button "Close" false close_models
          ∷ []))

-- The card of a provider.
unfoldable pub provider_card : AiProvider → List (Part Click Field)
provider_card provider =
    heading provider.display_name
    ∷ status_part (if provider.is_active then "active" else "revoked")
    ∷ text provider.slug
    ∷ (chips (models_of (some provider))
        ++ status_part (if provider.is_active then "active" else "revoked")
          ∷ menu (
              record { label = "Edit"; danger = false; action = edit provider }
              ∷ record { label = "Models"; danger = false; action = models provider }
              ∷ record {
                label = if provider.is_active then "Disable" else "Enable";
                danger = false;
                action = toggle provider;
              }
              ∷ [])
          ∷ [])

unfoldable pub providers_view :
    Bool → Option (List AiProvider) → Bool → ProvidersPage → List (Part Click Field)
unfolding edit_dialog models_dialog listing provider_card
providers_view is_loading providers updating p =
    heading "AI Providers"
    ∷ (edit_dialog updating p
        ++ (models_dialog p
            ++ listing is_loading providers 3 (text "No AI providers configured" ∷ []) []
                (λ (provider : AiProvider). provider.id) provider_card))
