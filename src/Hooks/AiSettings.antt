-- ===== src/Hooks/AiSettings.antt =====
-- portal/src/hooks/useAISettings.ts.
use mutell_demo.Prelude.{String, true, none, [], ◌∷◌}
use mutell_demo.Browser.{success, failure}
use mutell_demo.Types.Ai.{AiConfigCreateRequest, AiConfigUpdateRequest}
use mutell_demo.Services.AiSettings
use mutell_demo.Hooks.{text, Query, Mutation, invalidate, notify}

unfoldable pub use_ai_providers : Query
use_ai_providers = record {
  key = text "ai-providers" ∷ [];
  endpoint = AiSettings.list_providers;
  enabled = true;
  refetch_interval = none;
}

unfoldable pub use_ai_configs : Query
use_ai_configs = record {
  key = text "ai-configs" ∷ [];
  endpoint = AiSettings.list;
  enabled = true;
  refetch_interval = none;
}

unfoldable pub use_create_ai_config : (request : AiConfigCreateRequest) → Mutation (Unit {0})
use_create_ai_config request = record {
  endpoint = AiSettings.create request;
  on_success =
      λ reply. invalidate (text "ai-configs" ∷ []) ∷ notify (success "AI configuration added") ∷ [];
  on_error = λ e. notify (failure "Failed to add AI configuration") ∷ [];
}

unfoldable pub use_update_ai_config :
    (id : String) (request : AiConfigUpdateRequest) → Mutation (Unit {0})
use_update_ai_config id request = record {
  endpoint = AiSettings.update id request;
  on_success = λ reply.
      invalidate (text "ai-configs" ∷ []) ∷ notify (success "AI configuration updated") ∷ [];
  on_error = λ e. notify (failure "Failed to update AI configuration") ∷ [];
}

unfoldable pub use_delete_ai_config : (id : String) → Mutation (Unit {0})
use_delete_ai_config id = record {
  endpoint = AiSettings.delete id;
  on_success = λ reply.
      invalidate (text "ai-configs" ∷ []) ∷ notify (success "AI configuration deleted") ∷ [];
  on_error = λ e. notify (failure "Failed to delete AI configuration") ∷ [];
}
