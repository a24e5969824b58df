-- ===== src/Pages/Lists/Work.antt =====
-- The items that the pages of the reports and the AI configurations of a tenant show:
-- portal/src/app/(app)/reports/page.tsx and portal/src/app/(app)/settings/ai/page.tsx.
use mutell_demo.Prelude.{
  ◌≡◌, refl, String, Bool, true, false, Option, none, some, is_truthy, List, [], ◌∷◌, ◌++◌, ◌∙◌,
}
use mutell_demo.Types.Ai.{AiConfig, AiConfigListResponse, AiProviderOption}
use mutell_demo.Types.Report.{Report}
use mutell_demo.Format.{Locale}
use mutell_demo.Screen.{
  keys, shown_if, pager_part, confirm_dialog, has_target, empty_state, button, text,
}
use mutell_demo.Screen.Laws.{no_keys, keys-modal, keys-shown_if}
use mutell_demo.Screen.Labels.{labels, labels-skip, labels-listing, loaded}
use mutell_demo.Pages.Reports
use mutell_demo.Pages.Reports.{ReportsPage, ReportListResponse}
use mutell_demo.Pages.Settings.Ai.View as Ai
use mutell_demo.Pages.Settings.Ai.{AiPage}

abbrev pub reports_of : Option ReportListResponse → Option (List Report)
reports_of none = none
reports_of (some r) = some r.items

report_row-keys : (l : Locale) (b : Bool) (x : Report) → keys (Reports.report_row l b x) ≡ []
unfolding keys Reports.report_row
report_row-keys l b x = simp no_keys

create_report-keys : (busy : Bool) (p : ReportsPage) → keys (Reports.create_dialog busy p) ≡ []
unfolding keys Reports.create_dialog
create_report-keys busy p = keys-modal p.is_open Reports.close_dialog _ refl

pub report_labels :
    (l : Locale) (can_manage : Bool) (is_loading : Bool) (response : Option ReportListResponse)
    (creating deleting : Bool) (p : ReportsPage)
    → labels (Reports.reports_view l can_manage is_loading response creating deleting p)
      ≡ loaded is_loading (λ (x : Report). (x.id, x.title)) (reports_of response)
unfolding keys labels Reports.reports_view Reports.report_row
report_labels l can_manage is_loading none creating deleting p =
    labels-skip (shown_if can_manage (button "Generate Report" false Reports.open_dialog ∷ [])) _
      (keys-shown_if can_manage (button "Generate Report" false Reports.open_dialog ∷ []) refl)
    ∙ (labels-skip (Reports.create_dialog creating p) _ (create_report-keys creating p)
        ∙ (labels-listing (λ (x : Report). x.id) (λ (x : Report). x.title)
            (Reports.report_row l can_manage)
            (pager_part Reports.per_page none p.page
              ++ confirm_dialog (has_target p.delete_target) "Delete Report"
                  "Are you sure you want to delete this report? This action cannot be undone."
                  "Delete" deleting Reports.close_delete Reports.confirm_delete)
            (report_row-keys l can_manage) (λ x ps. refl) (simp no_keys) is_loading none 3
            (empty_state "No reports yet" "Generate your first report to get started.")
            ("Title" ∷ "Status" ∷ "Period" ∷ "Created" ∷ "Actions" ∷ []) refl))
report_labels l can_manage is_loading (some r) creating deleting p =
    labels-skip (shown_if can_manage (button "Generate Report" false Reports.open_dialog ∷ [])) _
      (keys-shown_if can_manage (button "Generate Report" false Reports.open_dialog ∷ []) refl)
    ∙ (labels-skip (Reports.create_dialog creating p) _ (create_report-keys creating p)
        ∙ (labels-listing (λ (x : Report). x.id) (λ (x : Report). x.title)
            (Reports.report_row l can_manage)
            (pager_part Reports.per_page (some r.total) p.page
              ++ confirm_dialog (has_target p.delete_target) "Delete Report"
                  "Are you sure you want to delete this report? This action cannot be undone."
                  "Delete" deleting Reports.close_delete Reports.confirm_delete)
            (report_row-keys l can_manage) (λ x ps. refl) (simp no_keys) is_loading (some r.items) 3
            (empty_state "No reports yet" "Generate your first report to get started.")
            ("Title" ∷ "Status" ∷ "Period" ∷ "Created" ∷ "Actions" ∷ []) refl))

abbrev pub configs_of : Option AiConfigListResponse → Option (List AiConfig)
configs_of none = none
configs_of (some r) = some r.items

prompt-keys : (prompt : Option String) → keys (Ai.prompt_parts prompt) ≡ []
unfolding keys Ai.prompt_parts
prompt-keys none = refl
prompt-keys (some written) = keys-shown_if (is_truthy written) _ refl

config_card-keys : (is_admin : Bool) (x : AiConfig) → keys (Ai.config_card is_admin x) ≡ []
unfolding keys Ai.config_card
config_card-keys true x = simp (
  no_keys,
  prompt-keys x.custom_prompt,
  keys-shown_if {A = Ai.Click} {F = Ai.Field} x.is_default (text "Default" ∷ []) refl,
)
config_card-keys false x = simp (
  no_keys,
  prompt-keys x.custom_prompt,
  keys-shown_if {A = Ai.Click} {F = Ai.Field} x.is_default (text "Default" ∷ []) refl,
)

empty-keys : (is_admin : Bool) → keys (Ai.no_configs is_admin) ≡ []
unfolding keys
empty-keys true = refl
empty-keys false = refl

add_config-keys :
    (ps : List AiProviderOption) (busy : Bool) (p : AiPage) → keys (Ai.add_dialog ps busy p) ≡ []
unfolding keys Ai.add_dialog
add_config-keys ps busy p = keys-modal p.add_open Ai.close_add _ refl

edit_config-keys :
    (ps : List AiProviderOption) (busy : Bool) (p : AiPage) → keys (Ai.edit_dialog ps busy p) ≡ []
unfolding keys Ai.edit_dialog
edit_config-keys ps busy p = keys-modal p.edit_open Ai.close_edit _ refl

pub config_labels :
    (is_admin : Bool) (is_loading : Bool) (response : Option AiConfigListResponse)
    (providers : Option (List AiProviderOption)) (creating updating deleting : Bool) (p : AiPage)
    → labels (Ai.ai_view is_admin is_loading response providers creating updating deleting p)
      ≡ loaded is_loading (λ (x : AiConfig). (x.id, x.provider_name)) (configs_of response)
unfolding keys labels Ai.ai_view Ai.config_card
config_labels is_admin is_loading none providers creating updating deleting p =
    labels-skip (shown_if is_admin (button "Add AI Configuration" false Ai.open_add ∷ [])) _
      (keys-shown_if is_admin (button "Add AI Configuration" false Ai.open_add ∷ []) refl)
    ∙ (labels-skip (Ai.add_dialog (Ai.options_of providers) creating p) _
          (add_config-keys (Ai.options_of providers) creating p)
        ∙ (labels-skip (Ai.edit_dialog (Ai.options_of providers) updating p) _
              (edit_config-keys (Ai.options_of providers) updating p)
            ∙ (labels-listing (λ (x : AiConfig). x.id) (λ (x : AiConfig). x.provider_name)
                (Ai.config_card is_admin)
                (confirm_dialog (has_target p.delete_target) "Delete AI Configuration"
                  "Are you sure you want to delete this AI configuration?" "Delete" deleting
                  Ai.close_delete Ai.confirm_delete)
                (config_card-keys is_admin) (λ x ps. refl) (simp no_keys) is_loading none 2
                (Ai.no_configs is_admin) ([]) (empty-keys is_admin))))
config_labels is_admin is_loading (some r) providers creating updating deleting p =
    labels-skip (shown_if is_admin (button "Add AI Configuration" false Ai.open_add ∷ [])) _
      (keys-shown_if is_admin (button "Add AI Configuration" false Ai.open_add ∷ []) refl)
    ∙ (labels-skip (Ai.add_dialog (Ai.options_of providers) creating p) _
          (add_config-keys (Ai.options_of providers) creating p)
        ∙ (labels-skip (Ai.edit_dialog (Ai.options_of providers) updating p) _
              (edit_config-keys (Ai.options_of providers) updating p)
            ∙ (labels-listing (λ (x : AiConfig). x.id) (λ (x : AiConfig). x.provider_name)
                (Ai.config_card is_admin)
                (confirm_dialog (has_target p.delete_target) "Delete AI Configuration"
                  "Are you sure you want to delete this AI configuration?" "Delete" deleting
                  Ai.close_delete Ai.confirm_delete)
                (config_card-keys is_admin) (λ x ps. refl) (simp no_keys) is_loading (some r.items)
                2 (Ai.no_configs is_admin) ([]) (empty-keys is_admin))))
