-- ===== src/Pages/Admin/Providers/Tests.antt =====
-- Two providers in the dialogs of portal/src/app/(app)/admin/ai-providers/page.tsx, one after the other.
use mutell_demo.Prelude.{◌≡◌, refl, true, false, none, some, is_blank, trim}
use mutell_demo.Types.Ai.{AiProvider}
use mutell_demo.Pages.Admin.Providers.{
  ProvidersPage, open_edit, save_api_key_start, open_models, add_model_finish, remove_model_start,
}

abbrev pub first : AiProvider
first = record {
  id = "a";
  slug = "a";
  display_name = "A";
  is_active = true;
  base_url = none;
  api_key = none;
  supported_models = none;
}

abbrev second : AiProvider
second = record first { id = "b" }

abbrev pub page : ProvidersPage
page = record {
  edit_open = false;
  models_open = false;
  editing_provider = none;
  edit_name = "";
  new_model = "";
  model_provider = none;
  api_key_input = "";
}

-- A key typed for the first provider is saved for the second.
key_of_another :
    save_api_key_start (open_edit second (record (open_edit first page) { api_key_input = "k" }))
    ≡ some
        ("b", record { display_name = none; is_active = none; api_key = some "k"; base_url = none })
unfolding save_api_key_start open_edit is_blank trim
key_of_another = refl

-- The answer to a model added to the first comes in the dialog of the second.
model_of_another :
    remove_model_start "m" (add_model_finish (some first) (open_models second page))
    ≡ some ("a", "m")
unfolding remove_model_start add_model_finish open_models
model_of_another = refl
