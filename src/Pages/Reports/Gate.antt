-- ===== src/Pages/Reports/Gate.antt =====
-- Who can do what on portal/src/app/(app)/reports/page.tsx, in every state that its controls lead to.
use mutell_demo.Prelude.{String, ◌≡◌, Bool, false, Option, none, List, [], ◌∷◌}
use mutell_demo.Types.Report.{Report}
use mutell_demo.Format.{Locale}
use mutell_demo.Screen.{Part, clicks, listing, empty_state}
use mutell_demo.Screen.Clicks.{Offered}
use mutell_demo.Pages.Reports
use mutell_demo.Pages.Reports.{
  ReportsPage, ReportListResponse, Click, download, Event, opened, on_click, on_event, reports_view,
  report_row,
}

-- A download is all that is left.
abbrev pub IsDownload : Click → Type 0
IsDownload (download id) = Unit {0}
IsDownload _ = ⊥

-- The states that the page comes to: a click is one that is offered while the queries and the
-- requests are in some state.
pub data Reach (l : Locale) (allowed : Bool) : ReportsPage → Type 0 where
  start : Reach l allowed opened
  click :
      {p : ReportsPage} (is_loading : Bool) (response : Option ReportListResponse)
      (creating deleting : Bool) (c : Click)
      → Reach l allowed p
      → Offered c (clicks (reports_view l allowed is_loading response creating deleting p))
      → Reach l allowed (on_click c p)
  other : {p : ReportsPage} (e : Event) → Reach l allowed p → Reach l allowed (on_event e p)

-- No dialog is open.
record IsClosed (p : ReportsPage) : Type 0 where
  closed : p.is_open ≡ false
  untargeted : p.delete_target ≡ none

abbrev nothing_yet : List (Part Click Reports.Field)
nothing_yet = empty_state "No reports yet" "Generate your first report to get started."

abbrev columns : List String
columns = "Title" ∷ "Status" ∷ "Period" ∷ "Created" ∷ "Actions" ∷ []

abbrev table : Locale → Bool → Option (List Report) → List (Part Click Reports.Field)
table l is_loading items =
    listing is_loading items 3 nothing_yet columns (λ (r : Report). r.id) (report_row l false)
