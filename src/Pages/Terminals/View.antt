-- ===== src/Pages/Terminals/View.antt =====
-- What portal/src/app/(app)/terminals/page.tsx shows.
use mutell_demo.Prelude.{
  ℕ, String, Bool, true, false, Option, none, some, List, [], ◌∷◌, ◌++◌, is_truthy, or_else,
  if◌then◌else◌, str_eq, ◌+++◌,
}
use mutell_demo.Types.{terminal_status_text}
use mutell_demo.Types.Terminal.{Terminal}
use mutell_demo.Format.{Locale, format_relative_time}
use mutell_demo.Screen.{
  Part, heading, text, button, menu, input, modal, counted, empty_state, listing, status_part,
  pager_part, confirm_dialog, has_target,
}
use mutell_demo.Pages.Terminals.{TerminalsPage}

abbrev pub per_page : ℕ
per_page = 20

pub record TerminalListResponse : Type 0 where
  pub items : List Terminal
  pub total : ℕ

pub data Click : Type 0 where
  open_create close_create create close_edit update close_delete confirm_delete : Click
  dismiss : Click
  copy ping ask_delete : String → Click
  edit : Terminal → Click

pub data Field : Type 0 where
  name description location edit_name edit_description edit_location : Field

-- The key of a new terminal, until it is dismissed.
unfoldable pub key_box : Option String → List (Part Click Field)
key_box none = []
key_box (some key) =
    if is_truthy key
    then text "API Key:"
      ∷ text key
      ∷ button "Copy" false (copy key)
      ∷ button "Dismiss" false dismiss
      ∷ []
    else []

-- The dismissal.
unfoldable pub dismiss_key : TerminalsPage → TerminalsPage
dismiss_key p = record p { revealed_key = none }

unfoldable pub create_dialog : Bool → TerminalsPage → List (Part Click Field)
unfolding modal
create_dialog busy p = modal p.create_open close_create (
    heading "Add Terminal"
    ∷ input "Name" name p.name false
    ∷ input "Description" description p.description false
    ∷ input "Location" location p.location false
    ∷ button (if busy then "Creating..." else "Create") busy create
    ∷ button "Cancel" false close_create
    ∷ [])

unfoldable pub edit_dialog : Bool → TerminalsPage → List (Part Click Field)
unfolding modal
edit_dialog busy p = modal p.edit_open close_edit (
    heading "Edit Terminal"
    ∷ input "Name" edit_name p.edit_name false
    ∷ input "Description" edit_description p.edit_desc false
    ∷ input "Location" edit_location p.edit_loc false
    ∷ button (if busy then "Saving..." else "Save") busy update
    ∷ button "Cancel" false close_edit
    ∷ [])

-- The line of a terminal.
unfoldable pub terminal_row : Locale → Terminal → List (Part Click Field)
unfolding format_relative_time
terminal_row l terminal =
    text terminal.name
    ∷ text (or_else terminal.location "—")
    ∷ status_part (terminal_status_text terminal.status)
    ∷ text (terminal.api_key_prefix +++ "...")
    ∷ text (elim terminal.last_seen_at as (λ x. String) [
      | none ↦ "Never"
      | some at ↦ if is_truthy at then format_relative_time l at else "Never"
    ])
    ∷ menu (
        record { label = "Edit"; danger = false; action = edit terminal }
        ∷ ((if str_eq (terminal_status_text terminal.status) "active"
              then record { label = "Ping"; danger = false; action = ping terminal.id } ∷ []
              else [])
            ++ record { label = "Delete"; danger = true; action = ask_delete terminal.id } ∷ []))
    ∷ []

unfoldable pub terminals_view :
    Locale
    → Bool
    → Option TerminalListResponse
    → Bool
    → Bool
    → Bool
    → ℕ
    → TerminalsPage
    → List (Part Click Field)
unfolding key_box create_dialog edit_dialog listing terminal_row counted confirm_dialog
terminals_view l is_loading response creating updating deleting page p =
    let items = elim response as (λ x. Option (List Terminal)) [
      | none ↦ none
      | some r ↦ some r.items
    ] in
    let total = elim response as (λ x. Option ℕ) [ none ↦ none | some r ↦ some r.total ] in
    heading "Terminals"
    ∷ button "Add Terminal" false open_create
    ∷ (key_box p.revealed_key
        ++ (create_dialog creating p
            ++ (edit_dialog updating p
                ++ heading (counted "Terminals" total)
                  ∷ (listing is_loading items 3
                        (empty_state "No terminals"
                          "Add a terminal to start receiving POS interactions.")
                        ("Name" ∷ "Location" ∷ "Status" ∷ "API Key" ∷ "Last Seen" ∷ "Actions" ∷ [])
                        (λ (terminal : Terminal). terminal.id) (terminal_row l)
                      ++ (pager_part per_page total page
                          ++ confirm_dialog (has_target p.delete_target) "Delete Terminal"
                              "Are you sure you want to delete this terminal? It will be revoked and cannot be restored."
                              "Delete" deleting close_delete confirm_delete)))))
