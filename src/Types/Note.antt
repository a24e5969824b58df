-- ===== src/Types/Note.antt =====
-- portal/src/types/note.ts: notes.
-- A field that may be missing or null is an `Option`.
use mutell_demo.Prelude.{String, ◌++◌}
use mutell_demo.Http.{Object, str, always}

pub record Note : Type 0 where
  pub id : String
  pub tenant_id : String
  pub user_id : String
  pub slot_id : String
  pub content : String
  pub created_at : String
  pub updated_at : String

pub record NoteCreateRequest : Type 0 where
  pub slot_id : String
  pub content : String

-- The object that is sent.
unfoldable pub note_create_request_object : NoteCreateRequest → Object
note_create_request_object r = always "slot_id" str r.slot_id ++ (always "content" str r.content)

pub record NoteUpdateRequest : Type 0 where
  pub content : String

-- The object that is sent.
unfoldable pub note_update_request_object : NoteUpdateRequest → Object
note_update_request_object r = always "content" str r.content
