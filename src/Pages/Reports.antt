-- ===== src/Pages/Reports.antt =====
-- The reports, portal/src/app/(app)/reports/page.tsx.
pub mod Gate
pub mod Tests
use mutell_demo.Prelude.{
  ℕ, String, Bool, true, false, not, ◌||◌, Option, none, some, List, [], ◌∷◌, ◌++◌, is_truthy,
  if◌then◌else◌, is_blank, str_eq, ◌+++◌,
}
use mutell_demo.Types.{report_status_text}
use mutell_demo.Types.Report.{Report, ReportCreateRequest}
use mutell_demo.Format.{Locale, format_relative_time}
use mutell_demo.Screen.{
  Part, heading, text, button, menu, input, checkbox, Item, shown_if, modal, counted, empty_state,
  listing, status_part, pager_part, confirm_dialog, has_target,
}

pub record ReportListResponse : Type 0 where
  pub items : List Report
  pub total : ℕ

-- The state of `ReportsPage`.
pub record ReportsPage : Type 0 where
  pub page : ℕ
  pub delete_target : Option String
  pub is_open : Bool
  pub title : String
  pub period_start : String
  pub period_end : String
  pub include_transcripts : Bool
  pub include_notes : Bool

abbrev pub opened : ReportsPage
opened = record {
  page = 1;
  delete_target = none;
  is_open = false;
  title = "";
  period_start = "";
  period_end = "";
  include_transcripts = false;
  include_notes = true;
}

abbrev pub per_page : ℕ
per_page = 20

-- `handleCreate`; `iso` is `new Date(text).toISOString()`.
unfoldable pub create_start : Locale → ReportsPage → Option ReportCreateRequest
create_start l p =
    if is_blank p.title || not (is_truthy p.period_start) || not (is_truthy p.period_end)
    then none
    else some (record {
      title = p.title;
      period_start = l.iso p.period_start;
      period_end = l.iso p.period_end;
      terminal_ids = none;
      include_transcripts = some p.include_transcripts;
      include_notes = some p.include_notes;
      accent_color = none;
    })

-- Its `onSuccess`: what the boxes say is kept.
unfoldable pub create_finish : ReportsPage → ReportsPage
create_finish p = record p { is_open = false; title = ""; period_start = ""; period_end = "" }

-- `handleDelete`, and its `onSuccess`.
unfoldable pub delete_start : ReportsPage → Option String
delete_start p = elim p.delete_target as (λ x. Option String) [
  | none ↦ none
  | some target ↦ if is_truthy target then some target else none
]

unfoldable pub delete_finish : ReportsPage → ReportsPage
delete_finish p = record p { delete_target = none }

pub data Click : Type 0 where
  open_dialog close_dialog create close_delete confirm_delete : Click
  download ask_delete : String → Click

pub data Field : Type 0 where
  title transcripts notes : Field

-- What a click does to the page; those that send a request leave it as it is.
unfoldable pub on_click : Click → ReportsPage → ReportsPage
on_click open_dialog p = record p { is_open = true }
on_click close_dialog p = record p { is_open = false }
on_click create p = p
on_click close_delete p = record p { delete_target = none }
on_click confirm_delete p = p
on_click (download id) p = p
on_click (ask_delete id) p = record p { delete_target = some id }

-- What else happens: the fields, the date pickers, the pagination, and the requests that succeed.
pub data Event : Type 0 where
  type_title pick_start pick_end : String → Event
  tick_transcripts tick_notes : Bool → Event
  set_page : ℕ → Event
  created deleted : Event

unfoldable pub on_event : Event → ReportsPage → ReportsPage
unfolding create_finish delete_finish
on_event (type_title s) p = record p { title = s }
on_event (pick_start s) p = record p { period_start = s }
on_event (pick_end s) p = record p { period_end = s }
on_event (tick_transcripts b) p = record p { include_transcripts = b }
on_event (tick_notes b) p = record p { include_notes = b }
on_event (set_page n) p = record p { page = n }
on_event created p = create_finish p
on_event deleted p = delete_finish p

-- Whether the button of the dialog is disabled.
unfoldable pub create_disabled : Bool → ReportsPage → Bool
create_disabled busy p =
    is_blank p.title || not (is_truthy p.period_start) || not (is_truthy p.period_end) || busy

unfoldable pub create_dialog : Bool → ReportsPage → List (Part Click Field)
unfolding modal create_disabled
create_dialog busy p = modal p.is_open close_dialog (
    heading "Generate Report"
    ∷ input "Title" title p.title false
    ∷ checkbox "Include transcripts" transcripts p.include_transcripts
    ∷ checkbox "Include notes" notes p.include_notes
    ∷ button (if busy then "Generating..." else "Generate") (create_disabled busy p) create
    ∷ button "Cancel" false close_dialog
    ∷ [])

-- The line of a report, for a user who may manage reports, or may not.
unfoldable pub report_row : Locale → Bool → Report → List (Part Click Field)
unfolding format_relative_time
report_row l can_manage report =
    text report.title
    ∷ status_part (report_status_text report.status)
    ∷ text (l.month_day report.period_start +++ (" — " +++ l.month_day_year report.period_end))
    ∷ text (format_relative_time l report.created_at)
    ∷ menu (
        (if str_eq (report_status_text report.status) "ready"
          then record { label = "Download"; danger = false; action = download report.id } ∷ []
          else [])
        ++ (if can_manage
            then record { label = "Delete"; danger = true; action = ask_delete report.id } ∷ []
            else []))
    ∷ []

-- The page; the date pickers of the dialog keep their own text.
unfoldable pub reports_view :
    Locale
    → Bool
    → Bool
    → Option ReportListResponse
    → Bool
    → Bool
    → ReportsPage
    → List (Part Click Field)
unfolding create_dialog listing report_row counted confirm_dialog
reports_view l can_manage is_loading response creating deleting p =
    let items = elim response as (λ x. Option (List Report)) [
      | none ↦ none
      | some r ↦ some r.items
    ] in
    let total = elim response as (λ x. Option ℕ) [ none ↦ none | some r ↦ some r.total ] in
    heading "Reports"
    ∷ (shown_if can_manage (button "Generate Report" false open_dialog ∷ [])
        ++ (create_dialog creating p
            ++ heading (counted "Reports" total)
              ∷ (listing is_loading items 3
                    (empty_state "No reports yet" "Generate your first report to get started.")
                    ("Title" ∷ "Status" ∷ "Period" ∷ "Created" ∷ "Actions" ∷ [])
                    (λ (report : Report). report.id) (report_row l can_manage)
                  ++ (pager_part per_page total p.page
                      ++ confirm_dialog (has_target p.delete_target) "Delete Report"
                          "Are you sure you want to delete this report? This action cannot be undone."
                          "Delete" deleting close_delete confirm_delete))))
