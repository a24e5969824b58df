-- ===== src/Pages/SlotDetail/Notes.antt =====
-- Which change to a note the panel of portal/src/app/(app)/slots/[id]/page.tsx sends.
use mutell_demo.Prelude.{
  ◌≡◌, refl, String, Option, none, some, is_blank, if◌then◌else◌, List, [], ◌∷◌,
}
use mutell_demo.Types.Note.{Note, NoteUpdateRequest}
use mutell_demo.Pages.SlotDetail.{
  NotesPanel, empty_panel, update_start, NoteEvent, types, edits, types_edit, cancels, asks, added,
  updated, deleted, note_step,
}

unfoldable pub note_run : NotesPanel → List NoteEvent → NotesPanel
note_run p [] = p
note_run p (e ∷ events) = note_run (note_step p e) events

-- The note whose pencil was clicked last, unless the edit was cancelled or a change was answered
-- since; `before` is the one before the events.
abbrev pub chosen : Option Note → List NoteEvent → Option Note
chosen before [] = before
chosen before (edits other ∷ events) = chosen (some other) events
chosen before (cancels ∷ events) = chosen none events
chosen before (updated ∷ events) = chosen none events
chosen before (_ ∷ events) = chosen before events

-- The text in the field for the edit.
abbrev pub typed : String → List NoteEvent → String
typed text [] = text
typed text (edits other ∷ events) = typed other.content events
typed text (types_edit new ∷ events) = typed new events
typed text (updated ∷ events) = typed "" events
typed text (_ ∷ events) = typed text events

-- The change for a chosen note and a text.
abbrev pub change_of : Option Note → String → Option (String × NoteUpdateRequest)
change_of none text = none
change_of (some note) text =
    if is_blank text then none else some (note.id, record { content = text })

update_start-change_of : (p : NotesPanel) → update_start p ≡ change_of p.editing_note p.edit_text
unfolding update_start
update_start-change_of p = go p.editing_note
  where
    go :
        (note : Option Note)
        → (elim note as (λ x. Option (String × NoteUpdateRequest)) [
          | none ↦ none
          | some n ↦
              if is_blank p.edit_text then none else some (n.id, record { content = p.edit_text })
        ])
          ≡ change_of note p.edit_text
    go none = refl
    go (some n) = refl

run_from :
    (p : NotesPanel) (events : List NoteEvent)
    → update_start (note_run p events)
      ≡ change_of (chosen p.editing_note events) (typed p.edit_text events)
unfolding note_run note_step
run_from p [] = update_start-change_of p
run_from p (types text ∷ events) = run_from (note_step p (types text)) events
run_from p (edits note ∷ events) = run_from (note_step p (edits note)) events
run_from p (types_edit text ∷ events) = run_from (note_step p (types_edit text)) events
run_from p (cancels ∷ events) = run_from (note_step p cancels) events
run_from p (asks target ∷ events) = run_from (note_step p (asks target)) events
run_from p (added ∷ events) = run_from (note_step p added) events
run_from p (updated ∷ events) = run_from (note_step p updated) events
run_from p (deleted ∷ events) = run_from (note_step p deleted) events

-- After any clicks, texts and answers, saving the edit sends the text in its field for the note
-- whose pencil was clicked last, and sends nothing if the text is blank, or if since then the edit
-- was cancelled or the answer to a change came, be it a change of another note.
pub update_start-run :
    (events : List NoteEvent)
    → update_start (note_run empty_panel events) ≡ change_of (chosen none events) (typed "" events)
update_start-run events = run_from empty_panel events
