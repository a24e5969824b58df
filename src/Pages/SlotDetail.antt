-- ===== src/Pages/SlotDetail.antt =====
-- The notes on a slot, portal/src/app/(app)/slots/[id]/page.tsx. A handler is cut at its request;
-- what it goes on with when the request has succeeded is an event of its own.
mod Notes
pub mod Gates
pub mod Evaluation
pub mod View
mod Tests
use mutell_demo.Prelude.{
  String, Bool, true, false, not, ◌||◌, Option, none, some, is_truthy, is_blank, if◌then◌else◌,
  List, [], ◌∷◌,
}
use mutell_demo.Types.Note.{Note, NoteCreateRequest, NoteUpdateRequest}

-- The state of `SlotDetailPage`.
pub record NotesPanel : Type 0 where
  pub note_text : String
  pub editing_note : Option Note
  pub edit_text : String
  pub delete_target : Option String

abbrev pub empty_panel : NotesPanel
empty_panel = record { note_text = ""; editing_note = none; edit_text = ""; delete_target = none }

-- `handleAddNote`
unfoldable pub add_start : String → NotesPanel → Option NoteCreateRequest
add_start slot_id p =
    if is_blank p.note_text
    then none
    else some (record { slot_id = slot_id; content = p.note_text })

unfoldable pub add_finish : NotesPanel → NotesPanel
add_finish p = record p { note_text = "" }

-- The pencil of a note, and "Cancel".
unfoldable pub edit_note : Note → NotesPanel → NotesPanel
edit_note note p = record p { editing_note = some note; edit_text = note.content }

unfoldable pub cancel_edit : NotesPanel → NotesPanel
cancel_edit p = record p { editing_note = none }

-- `handleUpdateNote`
unfoldable pub update_start : NotesPanel → Option (String × NoteUpdateRequest)
update_start p = elim p.editing_note as (λ x. Option (String × NoteUpdateRequest)) [
  | none ↦ none
  | some note ↦
      if is_blank p.edit_text then none else some (note.id, record { content = p.edit_text })
]

unfoldable pub update_finish : NotesPanel → NotesPanel
update_finish p = record p { editing_note = none; edit_text = "" }

-- The bin of a note, the dialog's "Cancel", and `handleDeleteNote`.
unfoldable pub ask_delete : Option String → NotesPanel → NotesPanel
ask_delete target p = record p { delete_target = target }

unfoldable pub delete_start : NotesPanel → Option String
delete_start p = elim p.delete_target as (λ x. Option String) [
  | none ↦ none
  | some target ↦ if is_truthy target then some target else none
]

unfoldable pub delete_finish : NotesPanel → NotesPanel
delete_finish p = record p { delete_target = none }

-- What the user does, and the answers that the page hears of.
pub data NoteEvent : Type 0 where
  types : String → NoteEvent
  edits : Note → NoteEvent
  types_edit : String → NoteEvent
  cancels : NoteEvent
  asks : Option String → NoteEvent
  added updated deleted : NoteEvent

unfoldable pub note_step : NotesPanel → NoteEvent → NotesPanel
unfolding add_finish edit_note cancel_edit update_finish ask_delete delete_finish
note_step p (types text) = record p { note_text = text }
note_step p (edits note) = edit_note note p
note_step p (types_edit text) = record p { edit_text = text }
note_step p cancels = cancel_edit p
note_step p (asks target) = ask_delete target p
note_step p added = add_finish p
note_step p updated = update_finish p
note_step p deleted = delete_finish p
