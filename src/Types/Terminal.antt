-- ===== src/Types/Terminal.antt =====
-- portal/src/types/terminal.ts: terminals.
-- A field that may be missing or null is an `Option`.
use mutell_demo.Prelude.{String, Option, ◌++◌}
use mutell_demo.Http.{Object, str, always, maybe}
use mutell_demo.Types.{TerminalStatus}

pub record Terminal : Type 0 where
  pub id : String
  pub tenant_id : String
  pub name : String
  pub description : Option String
  pub api_key_prefix : String
  pub location : Option String
  pub status : TerminalStatus
  pub last_seen_at : Option String
  pub created_at : String

pub record TerminalCreateRequest : Type 0 where
  pub name : String
  pub description : Option String
  pub location : Option String

-- The object that is sent.
unfoldable pub terminal_create_request_object : TerminalCreateRequest → Object
terminal_create_request_object r =
    always "name" str r.name
    ++ (maybe "description" str r.description ++ (maybe "location" str r.location))

pub record TerminalCreateResponse : Type 0 where
  pub base : Terminal
  pub open base use *
  pub api_key : String

pub record TerminalUpdateRequest : Type 0 where
  pub name : Option String
  pub description : Option String
  pub location : Option String

-- The object that is sent.
unfoldable pub terminal_update_request_object : TerminalUpdateRequest → Object
terminal_update_request_object r =
    maybe "name" str r.name
    ++ (maybe "description" str r.description ++ (maybe "location" str r.location))
