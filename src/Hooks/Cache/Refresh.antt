-- ===== src/Hooks/Cache/Refresh.antt =====
-- What a successful mutation refreshes, and what it leaves.
use mutell_demo.Prelude.{String, true, false, ◌≡◌, refl, Option, some, List, [], ◌∷◌, arith}
use mutell_demo.Browser.{ok}
use mutell_demo.Types.Query.{
  PageParams, NoteListParams, page_params_object, note_list_params_object,
}
use mutell_demo.Types.Slot.{SlotListParams, BulkReEvaluateRequest, slot_list_params_object}
use mutell_demo.Types.Auth.{InviteUserRequest, UpdateUserRequest, Permission}
use mutell_demo.Types.Terminal.{TerminalCreateRequest, TerminalUpdateRequest}
use mutell_demo.Types.Tenant.{TenantCreateRequest, TenantUpdateRequest}
use mutell_demo.Types.Plan.{PlanUpdateRequest}
use mutell_demo.Types.Note.{NoteCreateRequest, NoteUpdateRequest}
use mutell_demo.Types.Ai.{AiProviderUpdateRequest}
use mutell_demo.Hooks.{text, Query, Mutation, mutate, object_part}
use mutell_demo.Hooks.Users.{
  use_invite_user, use_update_user, use_delete_user, use_set_permissions, use_user_list,
  use_get_permissions,
}
use mutell_demo.Hooks.Slots.{
  use_re_evaluate, use_bulk_re_evaluate, use_slot_list, use_slot_detail, use_evaluation,
}
use mutell_demo.Hooks.Terminals.{
  use_create_terminal, use_update_terminal, use_delete_terminal, use_ping_terminal,
  use_terminal_list,
}
use mutell_demo.Hooks.Tenants.{use_update_tenant, use_tenant_detail}
use mutell_demo.Hooks.Notes.{use_create_note, use_update_note, use_delete_note, use_notes_list}
use mutell_demo.Hooks.AiSettings.{use_ai_providers}
use mutell_demo.Hooks.Admin.{
  use_admin_create_tenant, use_admin_update_tenant, use_admin_delete_tenant, use_admin_update_plan,
  use_admin_update_user, use_admin_update_ai_provider, use_admin_tenants, use_admin_tenant_detail,
  use_admin_users,
}
use mutell_demo.Hooks.Plans.{use_plan_detail}
use mutell_demo.Hooks.Cache.{QueryClient, stales, matches_ne}

-- After the mutation succeeds, the answer cached for the query is fetched again.
abbrev pub Refreshes : {A : Type 0} → QueryClient → Mutation A → Query → Type 0
Refreshes {A} qc m q = (a : A) → stales qc (mutate m (ok a)) q.key ≡ true

-- After the mutation succeeds, the answer cached for the query is kept.
abbrev pub Keeps : {A : Type 0} → QueryClient → Mutation A → Query → Type 0
Keeps {A} qc m q = (a : A) → stales qc (mutate m (ok a)) q.key ≡ false

module _ (qc : QueryClient) where
  -- A re-evaluation refreshes the slot that it is about and every page of every list of slots; a
  -- bulk re-evaluation refreshes those lists and the detail of every slot.
  pub re_evaluate-Refreshes :
      (id other : String) (filters : Option SlotListParams) (bulk : BulkReEvaluateRequest)
      → Refreshes qc (use_re_evaluate id) (use_slot_list filters)
        × Refreshes qc (use_re_evaluate id) (use_slot_detail id)
        × Refreshes qc (use_bulk_re_evaluate bulk) (use_slot_list filters)
        × Refreshes qc (use_bulk_re_evaluate bulk) (use_slot_detail other)
  unfolding mutate use_re_evaluate use_slot_list use_slot_detail use_bulk_re_evaluate
  re_evaluate-Refreshes id other filters bulk =
      let h1 =
        qc.matches_prefix (text "slots" ∷ []) (object_part slot_list_params_object filters ∷ []) in
      let h2 = qc.matches_prefix (text "slots" ∷ text id ∷ []) [] in
      let h3 = qc.matches_prefix (text "slots" ∷ []) (text other ∷ []) in
      (λ a. ground arith, λ a. ground arith, λ a. ground arith, λ a. ground arith)

  users_refreshed :
      (id : String) (invited : InviteUserRequest) (changed : UpdateUserRequest)
      (granted : List Permission) (page : Option PageParams)
      → Refreshes qc (use_invite_user invited) (use_user_list page)
        × Refreshes qc (use_update_user id changed) (use_user_list page)
        × Refreshes qc (use_delete_user id) (use_user_list page)
        × Refreshes qc (use_set_permissions id granted) (use_user_list page)
  unfolding mutate use_invite_user use_user_list use_update_user use_delete_user use_set_permissions
  users_refreshed id invited changed granted page =
      let h1 = qc.matches_prefix (text "users" ∷ []) (object_part page_params_object page ∷ []) in
      (λ a. ground arith, λ a. ground arith, λ a. ground arith, λ a. ground arith)

  terminals_refreshed :
      (id : String) (created : TerminalCreateRequest) (changed : TerminalUpdateRequest)
      (page : Option PageParams)
      → Refreshes qc (use_create_terminal created) (use_terminal_list page)
        × Refreshes qc (use_update_terminal id changed) (use_terminal_list page)
        × Refreshes qc (use_delete_terminal id) (use_terminal_list page)
        × Refreshes qc (use_ping_terminal id) (use_terminal_list page)
  unfolding mutate use_create_terminal use_terminal_list use_update_terminal use_delete_terminal
      use_ping_terminal
  terminals_refreshed id created changed page =
      let h1 =
        qc.matches_prefix (text "terminals" ∷ []) (object_part page_params_object page ∷ []) in
      (λ a. ground arith, λ a. ground arith, λ a. ground arith, λ a. ground arith)

  notes_refreshed :
      (id : String) (created : NoteCreateRequest) (changed : NoteUpdateRequest)
      (page : Option NoteListParams)
      → Refreshes qc (use_create_note created) (use_notes_list page)
        × Refreshes qc (use_update_note id changed) (use_notes_list page)
        × Refreshes qc (use_delete_note id) (use_notes_list page)
  unfolding mutate use_create_note use_notes_list use_update_note use_delete_note
  notes_refreshed id created changed page =
      let h1 =
        qc.matches_prefix (text "notes" ∷ []) (object_part note_list_params_object page ∷ []) in
      (λ a. ground arith, λ a. ground arith, λ a. ground arith)

  -- An invitation, a change, a suspension or new permissions of a user refresh every page of the
  -- list of users; a new, changed, deleted or pinged terminal every page of the list of terminals;
  -- and a new, changed or deleted note the notes of every slot.
  pub lists_refreshed :
      (id : String) (invited : InviteUserRequest) (user : UpdateUserRequest)
      (granted : List Permission) (new_terminal : TerminalCreateRequest)
      (terminal : TerminalUpdateRequest) (new_note : NoteCreateRequest) (note : NoteUpdateRequest)
      (page : Option PageParams) (notes : Option NoteListParams)
      → (Refreshes qc (use_invite_user invited) (use_user_list page)
          × Refreshes qc (use_update_user id user) (use_user_list page)
          × Refreshes qc (use_delete_user id) (use_user_list page)
          × Refreshes qc (use_set_permissions id granted) (use_user_list page))
        × (Refreshes qc (use_create_terminal new_terminal) (use_terminal_list page)
            × Refreshes qc (use_update_terminal id terminal) (use_terminal_list page)
            × Refreshes qc (use_delete_terminal id) (use_terminal_list page)
            × Refreshes qc (use_ping_terminal id) (use_terminal_list page))
        × (Refreshes qc (use_create_note new_note) (use_notes_list notes)
            × Refreshes qc (use_update_note id note) (use_notes_list notes)
            × Refreshes qc (use_delete_note id) (use_notes_list notes))
  lists_refreshed id invited user granted new_terminal terminal new_note note page notes = (
    users_refreshed id invited user granted page,
    terminals_refreshed id new_terminal terminal page,
    notes_refreshed id new_note note notes,
  )

  -- In the admin pages, a new, changed or deleted tenant refreshes every page of the list of tenants
  -- and every tenant's detail.
  pub admin_tenants_refreshed :
      (id other : String) (created : TenantCreateRequest) (changed : TenantUpdateRequest)
      (page : Option PageParams)
      → Refreshes qc (use_admin_create_tenant created) (use_admin_tenants page)
        × Refreshes qc (use_admin_update_tenant id changed) (use_admin_tenants page)
        × Refreshes qc (use_admin_delete_tenant id) (use_admin_tenants page)
        × Refreshes qc (use_admin_create_tenant created) (use_admin_tenant_detail other)
        × Refreshes qc (use_admin_update_tenant id changed) (use_admin_tenant_detail other)
        × Refreshes qc (use_admin_delete_tenant id) (use_admin_tenant_detail other)
  unfolding mutate use_admin_create_tenant use_admin_tenants use_admin_update_tenant
      use_admin_delete_tenant use_admin_tenant_detail
  admin_tenants_refreshed id other created changed page =
      let h1 =
        qc.matches_prefix (text "admin" ∷ text "tenants" ∷ [])
          (object_part page_params_object page ∷ []) in
      let h2 = qc.matches_prefix (text "admin" ∷ text "tenants" ∷ []) (text other ∷ []) in
      (
        λ a. ground arith,
        λ a. ground arith,
        λ a. ground arith,
        λ a. ground arith,
        λ a. ground arith,
        λ a. ground arith,
      )

  -- The admin pages and the pages of a tenant cache the same data under keys of their own: a change
  -- of a provider, a tenant, a plan or a user in the admin pages keeps what a tenant's pages have
  -- cached of it, and a change by a tenant keeps what the admin pages have. A re-evaluation keeps
  -- the cached evaluation of its slot, and new permissions keep the cached permissions of their
  -- user.
  pub scopes_apart :
      (id : String) (provider : AiProviderUpdateRequest) (tenant : TenantUpdateRequest)
      (plan : PlanUpdateRequest) (user : UpdateUserRequest) (granted : List Permission)
      (page : Option PageParams)
      → Keeps qc (use_admin_update_ai_provider id provider) use_ai_providers
        × Keeps qc (use_admin_update_tenant id tenant) (use_tenant_detail id)
        × Keeps qc (use_update_tenant id tenant) (use_admin_tenant_detail id)
        × Keeps qc (use_admin_update_plan id plan) (use_plan_detail id)
        × Keeps qc (use_admin_update_user id user) (use_user_list page)
        × Keeps qc (use_update_user id user) (use_admin_users page)
        × Keeps qc (use_re_evaluate id) (use_evaluation id)
        × Keeps qc (use_set_permissions id granted) (use_get_permissions (some id))
  unfolding mutate use_admin_update_ai_provider use_ai_providers use_admin_update_tenant
      use_tenant_detail use_update_tenant use_admin_tenant_detail use_admin_update_plan
      use_plan_detail use_admin_update_user use_user_list use_update_user use_admin_users
      use_re_evaluate use_evaluation use_set_permissions use_get_permissions
  scopes_apart id provider tenant plan user granted page = (
    λ a. ground (arith, matches_ne qc "admin" "ai-providers" (text "ai-providers" ∷ []) [] refl),
    λ a. ground (
      arith,
      matches_ne qc "admin" "tenants" (text "tenants" ∷ []) (text id ∷ []) refl,
      matches_ne qc "admin" "tenants" (text "tenants" ∷ text id ∷ []) (text id ∷ []) refl,
    ),
    λ a. ground (arith, matches_ne qc "tenants" "admin" [] (text "tenants" ∷ text id ∷ []) refl),
    λ a. ground (arith, matches_ne qc "admin" "plans" (text "plans" ∷ []) (text id ∷ []) refl),
    λ a. ground (
      arith,
      matches_ne qc "admin" "users" (text "users" ∷ []) (object_part page_params_object page ∷ [])
          refl,
    ),
    λ a. ground (
      arith,
      matches_ne qc "users" "admin" [] (text "users" ∷ object_part page_params_object page ∷ [])
          refl,
    ),
    λ a. ground (
      arith,
      matches_ne qc "slots" "evaluations" (text id ∷ []) (text id ∷ []) refl,
      matches_ne qc "slots" "evaluations" [] (text id ∷ []) refl,
    ),
    λ a. ground (arith, matches_ne qc "users" "user-permissions" [] (text id ∷ []) refl),
  )
