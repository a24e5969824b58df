-- ===== src/Hooks/Terminals.antt =====
-- portal/src/hooks/useTerminals.ts.
use mutell_demo.Prelude.{String, true, Option, none, [], ◌∷◌}
use mutell_demo.Browser.{success, failure}
use mutell_demo.Types.Query.{PageParams, page_params_object}
use mutell_demo.Types.Terminal.{
  TerminalCreateRequest, TerminalCreateResponse, TerminalUpdateRequest,
}
use mutell_demo.Services.Terminals
use mutell_demo.Hooks.{text, object_part, Query, Mutation, invalidate, notify}

unfoldable pub use_terminal_list : (params : Option PageParams) → Query
use_terminal_list params = record {
  key = text "terminals" ∷ object_part page_params_object params ∷ [];
  endpoint = Terminals.list params;
  enabled = true;
  refetch_interval = none;
}

unfoldable pub use_create_terminal :
    (request : TerminalCreateRequest) → Mutation TerminalCreateResponse
use_create_terminal request = record {
  endpoint = Terminals.create request;
  on_success =
      λ reply. invalidate (text "terminals" ∷ []) ∷ notify (success "Terminal created") ∷ [];
  on_error = λ e. notify (failure "Failed to create terminal") ∷ [];
}

unfoldable pub use_update_terminal :
    (id : String) (request : TerminalUpdateRequest) → Mutation (Unit {0})
use_update_terminal id request = record {
  endpoint = Terminals.update id request;
  on_success =
      λ reply. invalidate (text "terminals" ∷ []) ∷ notify (success "Terminal updated") ∷ [];
  on_error = λ e. notify (failure "Failed to update terminal") ∷ [];
}

unfoldable pub use_delete_terminal : (id : String) → Mutation (Unit {0})
use_delete_terminal id = record {
  endpoint = Terminals.delete id;
  on_success =
      λ reply. invalidate (text "terminals" ∷ []) ∷ notify (success "Terminal deleted") ∷ [];
  on_error = λ e. notify (failure "Failed to delete terminal") ∷ [];
}

unfoldable pub use_ping_terminal : (id : String) → Mutation (Unit {0})
use_ping_terminal id = record {
  endpoint = Terminals.ping id;
  on_success =
      λ reply. invalidate (text "terminals" ∷ []) ∷ notify (success "Ping sent successfully") ∷ [];
  on_error = λ e. notify (failure "Failed to ping terminal") ∷ [];
}
