-- ===== src/Services/Notes.antt =====
-- portal/src/services/notes.ts: noteService.
use mutell_demo.Prelude.{String, Option, [], ◌+++◌}
use mutell_demo.Http.{Endpoint, Method, empty, object, data_of, params_of}
use mutell_demo.Types.Note.{
  NoteCreateRequest, NoteUpdateRequest, note_create_request_object, note_update_request_object,
}
use mutell_demo.Types.Query.{NoteListParams, note_list_params_object}

unfoldable pub list : (params : Option NoteListParams) → Endpoint
list params = record {
  method = Method.get;
  path = "/notes";
  params = params_of note_list_params_object params;
  body = empty;
  unwrap = data_of;
}

unfoldable pub create : (request : NoteCreateRequest) → Endpoint
create request = record {
  method = Method.post;
  path = "/notes";
  params = [];
  body = object (note_create_request_object request);
  unwrap = data_of;
}

unfoldable pub update : (note_id : String) (request : NoteUpdateRequest) → Endpoint
update note_id request = record {
  method = Method.patch;
  path = "/notes/" +++ note_id;
  params = [];
  body = object (note_update_request_object request);
  unwrap = data_of;
}

unfoldable pub delete : (note_id : String) → Endpoint
delete note_id = record {
  method = Method.delete;
  path = "/notes/" +++ note_id;
  params = [];
  body = empty;
  unwrap = data_of;
}
