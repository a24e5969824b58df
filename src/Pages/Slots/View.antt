-- ===== src/Pages/Slots/View.antt =====
-- What portal/src/app/(app)/slots/page.tsx shows.
use mutell_demo.Prelude.{
  ℕ, String, Bool, false, ◌&&◌, Option, none, some, List, [], ◌∷◌, ◌++◌, map, length, ltb,
  if◌then◌else◌, decimal, ◌+++◌,
}
use mutell_demo.Types.{slot_status_text}
use mutell_demo.Types.Slot.{Slot}
use mutell_demo.Types.Terminal.{Terminal}
use mutell_demo.Format.{Locale, format_relative_time, format_duration, truncate}
use mutell_demo.Screen.Colors.{red, orange, yellow, green}
use mutell_demo.Screen.Scores.{Scores}
use mutell_demo.Screen.{
  Part, heading, text, tinted, button, checkbox, select, shown_if, counted, chips, bones,
  empty_state, rows, status_part, tag_parts, pager_part, confirm_dialog,
}
use mutell_demo.Pages.Slots.{SlotsPage, has, all_checked}

abbrev pub per_page : ℕ
per_page = 20

-- `statusOptions`
abbrev pub status_options : List (String × String)
status_options =
    ("", "All Statuses")
    ∷ ("evaluated", "Evaluated")
    ∷ ("accepted", "Accepted")
    ∷ ("pending", "Pending")
    ∷ ("processing", "Processing")
    ∷ ("unclear", "Unclear")
    ∷ ("failed", "Failed")
    ∷ []

-- `terminalOptions`
unfoldable pub terminal_options : Option (List Terminal) → List (String × String)
terminal_options none = ("", "All Terminals") ∷ []
terminal_options (some terminals) =
    ("", "All Terminals") ∷ map (λ (t : Terminal). (t.id, t.name)) terminals

pub data Click : Type 0 where
  ask_bulk close_bulk confirm_bulk : Click
  open_slot : String → Click

pub data Field : Type 0 where
  status terminal all : Field
  one : String → Field

pub record SlotListResponse (W : Type 0) : Type 0 where
  pub items : List (Slot W)
  pub total : ℕ

abbrev pub ids : {W : Type 0} → List (Slot W) → List String
ids [] = []
ids (x ∷ xs) = x.id ∷ ids xs

module _ {W : Type 0} ⦃s : Scores W⦄ where
  -- The score of a line: its colour and its text.
  unfoldable pub score_cell : Option W → List (Part Click Field)
  score_cell none = text "—" ∷ []
  score_cell (some x) =
      tinted
        (if s.ge x (s.of 80)
          then green
          else if s.ge x (s.of 60)
          then yellow
          else if s.ge x (s.of 40)
          then orange
          else red)
        (s.fixed x)
      ∷ []

  -- The line of a slot; a click on it opens the slot, except on its box.
  unfoldable pub slot_row : Locale → Bool → SlotsPage → Slot W → List (Part Click Field)
  unfolding score_cell tag_parts format_duration format_relative_time truncate decimal
  slot_row l is_admin p slot =
      shown_if is_admin (checkbox "" (one slot.id) (has slot.id p.selected) ∷ [])
      ++ button (truncate slot.id 8) false (open_slot slot.id)
        ∷ status_part (slot_status_text slot.status)
        ∷ (score_cell slot.score_overall
            ++ (tag_parts slot.tags
                ++ text (format_duration slot.duration_secs)
                  ∷ text (elim slot.word_count as (λ x. String) [ none ↦ "—" | some n ↦ decimal n ])
                  ∷ text (format_relative_time l slot.created_at)
                  ∷ []))

  -- The table: for an administrator with a box in its head.
  unfoldable pub slots_table : Locale → Bool → SlotsPage → List (Slot W) → List (Part Click Field)
  unfolding rows slot_row all_checked
  slots_table l is_admin p items =
      shown_if is_admin (checkbox "" all (all_checked (ids items) p) ∷ [])
      ++ (chips ("ID" ∷ "Status" ∷ "Score" ∷ "Tags" ∷ "Duration" ∷ "Words" ∷ "Created" ∷ [])
          ++ rows (λ (slot : Slot W). slot.id) (slot_row l is_admin p) items)

  unfoldable pub slots_view :
      Locale
      → Bool
      → Bool
      → Option (SlotListResponse W)
      → Option (List Terminal)
      → Bool
      → SlotsPage
      → List (Part Click Field)
  unfolding slots_table counted terminal_options confirm_dialog decimal
  slots_view l is_admin is_loading response terminals busy p =
      let total = elim response as (λ x. Option ℕ) [ none ↦ none | some r ↦ some r.total ] in
      let count = decimal (length p.selected) in
      heading "Slots"
      ∷ heading (counted "Evaluation Sessions" total)
      ∷ (shown_if (is_admin && ltb 0 (length p.selected))
            (button ("Re-evaluate (" +++ (count +++ ")")) false ask_bulk ∷ [])
          ++ select "Status" status status_options p.status
            ∷ select "Terminal" terminal (terminal_options terminals) p.terminal_id
            ∷ (elim response as (λ x. List (Part Click Field)) [
              | none ↦
                  if is_loading
                  then bones 5
                  else empty_state "No slots found"
                      "No evaluation sessions match your current filters."
              | some r ↦
                  if is_loading
                  then bones 5
                  else if ltb 0 (length r.items)
                  then slots_table l is_admin p r.items
                  else empty_state "No slots found"
                      "No evaluation sessions match your current filters."
            ]
                ++ (pager_part per_page total p.page
                    ++ confirm_dialog p.bulk_confirm "Bulk Re-evaluate"
                        ("Are you sure you want to re-evaluate " +++ (count +++ " selected slots?"))
                        "Re-evaluate" busy close_bulk confirm_bulk)))
