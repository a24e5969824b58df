-- ===== src/Pages/Settings/Ai/View.antt =====
-- What the page of the AI configurations shows, portal/src/app/(app)/settings/ai/page.tsx.
use mutell_demo.Prelude.{
  String, Bool, true, false, Option, none, some, List, [], ◌∷◌, ◌++◌, is_truthy, if◌then◌else◌,
  ◌+++◌,
}
use mutell_demo.Types.Ai.{AiConfig, AiConfigListResponse, AiProviderOption}
use mutell_demo.Screen.{
  Part, heading, text, button, menu, input, checkbox, select, shown_if, modal, empty_state, listing,
  confirm_dialog, has_target,
}
use mutell_demo.Pages.Settings.Ai.{AiPage, models_for, model_options, provider_options}

pub data Click : Type 0 where
  open_add close_add create close_edit update close_delete confirm_delete : Click
  edit : AiConfig → Click
  ask_delete : String → Click

pub data Field : Type 0 where
  provider model is_default prompt : Field
  edit_provider edit_model edit_is_default edit_prompt : Field

unfoldable pub add_dialog : List AiProviderOption → Bool → AiPage → List (Part Click Field)
unfolding modal model_options provider_options models_for
add_dialog providers busy p = modal p.add_open close_add (
    heading "Add AI Configuration"
    ∷ select "Provider" provider (provider_options providers) p.provider_id
    ∷ select "Model" model (model_options (models_for p.provider_id providers)) p.model_id
    ∷ checkbox "Set as default" is_default p.is_default
    ∷ input "Custom Prompt" prompt p.custom_prompt false
    ∷ button (if busy then "Adding..." else "Add Configuration") busy create
    ∷ button "Cancel" false close_add
    ∷ [])

abbrev provider_name : Option AiConfig → String
provider_name none = ""
provider_name (some config) = config.provider_name

-- `editProviderModels`
unfoldable pub edit_models : List AiProviderOption → AiPage → List String
unfolding models_for
edit_models providers p = elim p.editing_config as (λ x. List String) [
  | none ↦ []
  | some config ↦ models_for config.provider_id providers
]

unfoldable pub edit_dialog : List AiProviderOption → Bool → AiPage → List (Part Click Field)
unfolding modal model_options edit_models
edit_dialog providers busy p = modal p.edit_open close_edit (
    heading "Edit AI Configuration"
    ∷ input "Provider" edit_provider (provider_name p.editing_config) true
    ∷ select "Model" edit_model (model_options (edit_models providers p)) p.edit_model_id
    ∷ checkbox "Set as default" edit_is_default p.edit_is_default
    ∷ input "Custom Prompt" edit_prompt p.edit_custom_prompt false
    ∷ button (if busy then "Saving..." else "Save") busy update
    ∷ button "Cancel" false close_edit
    ∷ [])

-- The prompt of a configuration, where it has one.
unfoldable pub prompt_parts : Option String → List (Part Click Field)
prompt_parts none = []
prompt_parts (some written) =
    shown_if (is_truthy written) (text "Custom Prompt" ∷ text written ∷ [])

-- The card of a configuration, for an administrator or another user.
unfoldable pub config_card : Bool → AiConfig → List (Part Click Field)
unfolding prompt_parts
config_card is_admin config =
    heading config.provider_name
    ∷ (shown_if config.is_default (text "Default" ∷ [])
        ++ text ("Model: " +++ config.model_id)
          ∷ (shown_if is_admin (
                menu (
                  record { label = "Edit"; danger = false; action = edit config }
                  ∷ record { label = "Delete"; danger = true; action = ask_delete config.id }
                  ∷ [])
                ∷ [])
              ++ prompt_parts config.custom_prompt))

-- What stands in the place of an empty list.
abbrev pub no_configs : Bool → List (Part Click Field)
no_configs is_admin =
    empty_state "No AI configurations"
      "Add an AI provider configuration to start evaluating interactions."
    ++ shown_if is_admin (button "Add Configuration" false open_add ∷ [])

-- `providers || []`
abbrev pub options_of : Option (List AiProviderOption) → List AiProviderOption
options_of none = []
options_of (some providers) = providers

-- The page for a user who is an administrator of the tenant, or is not; its queries and mutations.
unfoldable pub ai_view :
    Bool
    → Bool
    → Option AiConfigListResponse
    → Option (List AiProviderOption)
    → Bool
    → Bool
    → Bool
    → AiPage
    → List (Part Click Field)
unfolding add_dialog edit_dialog listing config_card confirm_dialog
ai_view is_admin is_loading configs fetched creating updating deleting p =
    let providers = options_of fetched in
    let items = elim configs as (λ x. Option (List AiConfig)) [
      | none ↦ none
      | some r ↦ some r.items
    ] in
    heading "AI Configuration"
    ∷ (shown_if is_admin (button "Add AI Configuration" false open_add ∷ [])
        ++ (add_dialog providers creating p
            ++ (edit_dialog providers updating p
                ++ (listing is_loading items 2 (no_configs is_admin) []
                      (λ (config : AiConfig). config.id) (config_card is_admin)
                    ++ confirm_dialog (has_target p.delete_target) "Delete AI Configuration"
                        "Are you sure you want to delete this AI configuration?" "Delete" deleting
                        close_delete confirm_delete))))
