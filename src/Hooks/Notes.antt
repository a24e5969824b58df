-- ===== src/Hooks/Notes.antt =====
-- portal/src/hooks/useNotes.ts.
use mutell_demo.Prelude.{String, true, Option, none, [], ◌∷◌, or_else}
use mutell_demo.Browser.{success, failure, detail_of}
use mutell_demo.Types.Note.{NoteCreateRequest, NoteUpdateRequest}
use mutell_demo.Types.Query.{NoteListParams, note_list_params_object}
use mutell_demo.Services.Notes
use mutell_demo.Hooks.{text, object_part, Query, Mutation, invalidate, notify}

unfoldable pub use_notes_list : (params : Option NoteListParams) → Query
use_notes_list params = record {
  key = text "notes" ∷ object_part note_list_params_object params ∷ [];
  endpoint = Notes.list params;
  enabled = true;
  refetch_interval = none;
}

unfoldable pub use_create_note : (request : NoteCreateRequest) → Mutation (Unit {0})
use_create_note request = record {
  endpoint = Notes.create request;
  on_success = λ reply. invalidate (text "notes" ∷ []) ∷ notify (success "Note added") ∷ [];
  on_error = λ e. notify (failure "Failed to add note") ∷ [];
}

unfoldable pub use_update_note : (id : String) (request : NoteUpdateRequest) → Mutation (Unit {0})
use_update_note id request = record {
  endpoint = Notes.update id request;
  on_success = λ reply. invalidate (text "notes" ∷ []) ∷ notify (success "Note updated") ∷ [];
  on_error = λ e. notify (failure (or_else (detail_of e) "Failed to update note")) ∷ [];
}

unfoldable pub use_delete_note : (id : String) → Mutation (Unit {0})
use_delete_note id = record {
  endpoint = Notes.delete id;
  on_success = λ reply. invalidate (text "notes" ∷ []) ∷ notify (success "Note deleted") ∷ [];
  on_error = λ e. notify (failure (or_else (detail_of e) "Failed to delete note")) ∷ [];
}
