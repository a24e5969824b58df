-- ===== src/Pages/Settings/Ai/Tests.antt =====
-- A model that its provider does not have.
use mutell_demo.Prelude.{◌≡◌, refl, true, false, none, some}
use mutell_demo.Pages.Settings.Ai.{AiPage, set_provider, set_model, create_start}

abbrev pub ai_page : AiPage
ai_page = record {
  add_open = true;
  edit_open = false;
  delete_target = none;
  provider_id = "";
  model_id = "";
  is_default = false;
  custom_prompt = "";
  editing_config = none;
  edit_model_id = "";
  edit_is_default = false;
  edit_custom_prompt = "";
}

-- The provider is changed after the model: the model of the other provider is sent.
model_kept :
    create_start (set_provider "b" (set_model "model of a" (set_provider "a" ai_page)))
    ≡ some (record {
      provider_id = "b";
      model_id = "model of a";
      api_key = none;
      is_default = some false;
      custom_prompt = none;
    })
unfolding create_start set_provider set_model
model_kept = refl
