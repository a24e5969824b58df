-- ===== src/Pages/SlotDetail/Tests.antt =====
-- The notes panel with two notes.
use mutell_demo.Prelude.{◌≡◌, refl, true, false, none, some, is_blank, List, [], ◌∷◌, All}
use mutell_demo.Session.{User}
use mutell_demo.Access.{can_create_notes}
use mutell_demo.Format.Plain.{plain}
use mutell_demo.Screen.{clicks}
use mutell_demo.Types.Note.{Note}
use mutell_demo.Pages.SlotDetail.{
  empty_panel, add_start, update_start, NoteEvent, edits, types_edit, updated, note_step,
}
use mutell_demo.Pages.SlotDetail.View.{edit, ask_delete, notes_parts}
use mutell_demo.Pages.SlotDetail.Gates.{pencils, IsOther, viewer_pencils}
use mutell_demo.Pages.SlotDetail.Notes.{note_run, change_of, update_start-run}

abbrev first : Note
first = record {
  id = "n1";
  tenant_id = "t";
  user_id = "u";
  slot_id = "s";
  content = "good";
  created_at = "";
  updated_at = "";
}

abbrev second : Note
second = record first { id = "n2"; content = "bad" }

blank_not_sent : add_start "s" (record empty_panel { note_text = "  " }) ≡ none
unfolding add_start is_blank
blank_not_sent = refl

-- The answer to a change of the first note comes while the second is edited.
abbrev late : List NoteEvent
late = edits first ∷ types_edit "fine" ∷ edits second ∷ types_edit "worse" ∷ updated ∷ []

late_sends_nothing : update_start (note_run empty_panel late) ≡ none
unfolding update_start note_run note_step
late_sends_nothing = refl

update_start-run_example :
    update_start (note_run empty_panel (edits first ∷ types_edit "fine" ∷ edits second ∷ []))
    ≡ change_of (some second) "bad"
update_start-run_example = update_start-run (edits first ∷ types_edit "fine" ∷ edits second ∷ [])

abbrev ann : User
ann = record {
  id = "u1";
  email = "ann@shop.example";
  full_name = "Ann";
  role = "viewer";
  tenant_id = none;
  avatar_url = none;
}

-- One note is edited, and then none.
viewer_pencils_example :
    All IsOther (
      clicks (
        notes_parts plain
          (can_create_notes (some ann))
          true
          (some (first ∷ []))
          false
          false
          (note_step empty_panel (edits first))))
    × (clicks (
          notes_parts plain
            (can_create_notes (some ann))
            false
            (some (first ∷ second ∷ []))
            false
            false
            empty_panel)
        ≡ edit first ∷ ask_delete "n1" ∷ edit second ∷ ask_delete "n2" ∷ [])
unfolding pencils can_create_notes
viewer_pencils_example =
    viewer_pencils plain (some ann) true false false (some (first ∷ []))
      (note_step empty_panel (edits first)) empty_panel first (second ∷ []) refl refl
