-- ===== src/Pages/Terminals.antt =====
-- The list of terminals, portal/src/app/(app)/terminals/page.tsx: its dialogs and what they send.
pub mod View
use mutell_demo.Prelude.{
  String, Bool, true, false, Option, none, some, is_truthy, or_else, or_undefined, if◌then◌else◌,
  is_blank,
}
use mutell_demo.Types.Terminal.{
  Terminal, TerminalCreateRequest, TerminalCreateResponse, TerminalUpdateRequest,
}

-- The state of `TerminalsPage`; its `page` is that of `Paging`.
pub record TerminalsPage : Type 0 where
  pub create_open : Bool
  pub edit_open : Bool
  pub name : String
  pub description : String
  pub location : String
  pub revealed_key : Option String
  pub editing_terminal : Option Terminal
  pub edit_name : String
  pub edit_desc : String
  pub edit_loc : String
  pub delete_target : Option String

-- "Add Terminal"
unfoldable pub open_create : TerminalsPage → TerminalsPage
open_create p = record p { revealed_key = none; create_open = true }

-- `handleCreate`, and its `onSuccess`.
unfoldable pub create_start : TerminalsPage → Option TerminalCreateRequest
create_start p =
    if is_blank p.name
    then none
    else some (record {
      name = p.name;
      description = or_undefined p.description;
      location = or_undefined p.location;
    })

unfoldable pub create_finish : TerminalCreateResponse → TerminalsPage → TerminalsPage
create_finish reply p = record p {
  name = "";
  description = "";
  location = "";
  revealed_key = if is_truthy reply.api_key then some reply.api_key else p.revealed_key;
  create_open = false;
}

unfoldable pub open_edit : Terminal → TerminalsPage → TerminalsPage
open_edit terminal p = record p {
  editing_terminal = some terminal;
  edit_name = terminal.name;
  edit_desc = or_else terminal.description "";
  edit_loc = or_else terminal.location "";
  edit_open = true;
}

-- `handleUpdate`
unfoldable pub update_start : TerminalsPage → Option (String × TerminalUpdateRequest)
update_start p = elim p.editing_terminal as (λ x. Option (String × TerminalUpdateRequest)) [
  | none ↦ none
  | some terminal ↦ some (
    terminal.id,
    record {
      name = some p.edit_name;
      description = or_undefined p.edit_desc;
      location = or_undefined p.edit_loc;
    },
  )
]

-- `handleDelete`, and its `onSuccess`.
unfoldable pub delete_start : TerminalsPage → Option String
delete_start p = elim p.delete_target as (λ x. Option String) [
  | none ↦ none
  | some target ↦ if is_truthy target then some target else none
]

unfoldable pub delete_finish : TerminalsPage → TerminalsPage
delete_finish p = record p { delete_target = none }
