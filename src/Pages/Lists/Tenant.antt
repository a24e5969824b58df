-- ===== src/Pages/Lists/Tenant.antt =====
-- The items that the pages of the people and the terminals of a tenant show:
-- portal/src/app/(app)/team/page.tsx and portal/src/app/(app)/terminals/page.tsx.
use mutell_demo.Prelude.{
  ℕ, ◌≡◌, refl, String, Bool, Option, none, some, is_truthy, if_intro, List, [], ◌∷◌, ◌++◌, ◌∙◌,
}
use mutell_demo.Types.Terminal.{Terminal}
use mutell_demo.Types.Auth.{UserResponse, PermissionsSchemaResponse, PermissionsResponse}
use mutell_demo.Format.{Locale}
use mutell_demo.Screen.{Part, keys, pager_part, confirm_dialog, has_target, empty_state}
use mutell_demo.Screen.Laws.{no_keys, keys-modal}
use mutell_demo.Screen.Labels.{labels, labels-skip, labels-listing, loaded}
use mutell_demo.Pages.Team.View as Team
use mutell_demo.Pages.Team.View.{UserListResponse, Busy}
use mutell_demo.Pages.Team.{TeamPage}
use mutell_demo.Pages.Terminals.View as Terminals
use mutell_demo.Pages.Terminals.View.{TerminalListResponse}
use mutell_demo.Pages.Terminals.{TerminalsPage}

abbrev pub members_of : Option UserListResponse → Option (List UserResponse)
members_of none = none
members_of (some r) = some r.items

member_row-keys : (l : Locale) (x : UserResponse) → keys (Team.member_row l x) ≡ []
unfolding keys Team.member_row
member_row-keys l x = simp no_keys

invite-keys : (busy : Bool) (p : TeamPage) → keys (Team.invite_dialog busy p) ≡ []
unfolding keys Team.invite_dialog
invite-keys busy p = keys-modal p.invite_open Team.close_invite _ refl

edit_member-keys : (busy : Bool) (p : TeamPage) → keys (Team.edit_dialog busy p) ≡ []
unfolding keys Team.edit_dialog
edit_member-keys busy p = keys-modal p.edit_open Team.close_edit _ refl

switches-keys : (p : TeamPage) (ks : List (String × String)) → keys (Team.switches p ks) ≡ []
unfolding keys Team.switches
switches-keys p [] = refl
switches-keys p (k ∷ ks) = switches-keys p ks

permissions-keys :
    (schema : Option PermissionsSchemaResponse) (fetched : Option PermissionsResponse) (busy : Bool)
    (p : TeamPage)
    → keys (Team.permissions_dialog schema fetched busy p) ≡ []
unfolding keys Team.permissions_dialog
permissions-keys schema none busy p = keys-modal p.permissions_open Team.close_permissions _ refl
permissions-keys schema (some loaded) busy p =
    keys-modal p.permissions_open Team.close_permissions _
      (simp (no_keys, switches-keys p (Team.permission_labels schema)))

pub member_labels :
    (l : Locale) (is_loading : Bool) (response : Option UserListResponse)
    (schema : Option PermissionsSchemaResponse) (fetched : Option PermissionsResponse) (busy : Busy)
    (page : ℕ) (p : TeamPage)
    → labels (Team.team_view l is_loading response schema fetched busy page p)
      ≡ loaded is_loading (λ (x : UserResponse). (x.id, x.full_name)) (members_of response)
unfolding keys labels Team.team_view Team.member_row
member_labels l is_loading none schema fetched busy page p =
    labels-skip (Team.invite_dialog busy.inviting p) _ (invite-keys busy.inviting p)
    ∙ (labels-skip (Team.edit_dialog busy.updating p) _ (edit_member-keys busy.updating p)
        ∙ (labels-skip (Team.permissions_dialog schema fetched busy.saving p) _
              (permissions-keys schema fetched busy.saving p)
            ∙ (labels-listing (λ (x : UserResponse). x.id) (λ (x : UserResponse). x.full_name)
                (Team.member_row l)
                (pager_part Team.per_page none page
                  ++ confirm_dialog (has_target p.delete_target) "Suspend User"
                      "Are you sure you want to suspend this user? They will lose access to the platform."
                      "Suspend" busy.suspending Team.close_delete Team.confirm_delete)
                (member_row-keys l) (λ x ps. refl) (simp no_keys) is_loading none 3
                (empty_state "No team members" "Invite your first team member to get started.")
                ("Name" ∷ "Email" ∷ "Role" ∷ "Status" ∷ "Last Login" ∷ "Actions" ∷ []) refl)))
member_labels l is_loading (some r) schema fetched busy page p =
    labels-skip (Team.invite_dialog busy.inviting p) _ (invite-keys busy.inviting p)
    ∙ (labels-skip (Team.edit_dialog busy.updating p) _ (edit_member-keys busy.updating p)
        ∙ (labels-skip (Team.permissions_dialog schema fetched busy.saving p) _
              (permissions-keys schema fetched busy.saving p)
            ∙ (labels-listing (λ (x : UserResponse). x.id) (λ (x : UserResponse). x.full_name)
                (Team.member_row l)
                (pager_part Team.per_page (some r.total) page
                  ++ confirm_dialog (has_target p.delete_target) "Suspend User"
                      "Are you sure you want to suspend this user? They will lose access to the platform."
                      "Suspend" busy.suspending Team.close_delete Team.confirm_delete)
                (member_row-keys l) (λ x ps. refl) (simp no_keys) is_loading (some r.items) 3
                (empty_state "No team members" "Invite your first team member to get started.")
                ("Name" ∷ "Email" ∷ "Role" ∷ "Status" ∷ "Last Login" ∷ "Actions" ∷ []) refl)))

abbrev pub terminals_of : Option TerminalListResponse → Option (List Terminal)
terminals_of none = none
terminals_of (some r) = some r.items

terminal_row-keys : (l : Locale) (x : Terminal) → keys (Terminals.terminal_row l x) ≡ []
unfolding keys Terminals.terminal_row
terminal_row-keys l x = simp no_keys

create_terminal-keys :
    (busy : Bool) (p : TerminalsPage) → keys (Terminals.create_dialog busy p) ≡ []
unfolding keys Terminals.create_dialog
create_terminal-keys busy p = keys-modal p.create_open Terminals.close_create _ refl

edit_terminal-keys : (busy : Bool) (p : TerminalsPage) → keys (Terminals.edit_dialog busy p) ≡ []
unfolding keys Terminals.edit_dialog
edit_terminal-keys busy p = keys-modal p.edit_open Terminals.close_edit _ refl

key_box-keys : (key : Option String) → keys (Terminals.key_box key) ≡ []
unfolding keys Terminals.key_box
key_box-keys none = refl
key_box-keys (some key) =
    if_intro (λ (ps : List (Part Terminals.Click Terminals.Field)). keys ps ≡ []) (is_truthy key)
      (λ h. refl) (λ h. refl)

pub terminal_labels :
    (l : Locale) (is_loading : Bool) (response : Option TerminalListResponse)
    (creating updating deleting : Bool) (page : ℕ) (p : TerminalsPage)
    → labels (Terminals.terminals_view l is_loading response creating updating deleting page p)
      ≡ loaded is_loading (λ (x : Terminal). (x.id, x.name)) (terminals_of response)
unfolding keys labels Terminals.terminals_view Terminals.terminal_row
terminal_labels l is_loading none creating updating deleting page p =
    labels-skip (Terminals.key_box p.revealed_key) _ (key_box-keys p.revealed_key)
    ∙ (labels-skip (Terminals.create_dialog creating p) _ (create_terminal-keys creating p)
        ∙ (labels-skip (Terminals.edit_dialog updating p) _ (edit_terminal-keys updating p)
            ∙ (labels-listing (λ (x : Terminal). x.id) (λ (x : Terminal). x.name)
                (Terminals.terminal_row l)
                (pager_part Terminals.per_page none page
                  ++ confirm_dialog (has_target p.delete_target) "Delete Terminal"
                      "Are you sure you want to delete this terminal? It will be revoked and cannot be restored."
                      "Delete" deleting Terminals.close_delete Terminals.confirm_delete)
                (terminal_row-keys l) (λ x ps. refl) (simp no_keys) is_loading none 3
                (empty_state "No terminals" "Add a terminal to start receiving POS interactions.")
                ("Name" ∷ "Location" ∷ "Status" ∷ "API Key" ∷ "Last Seen" ∷ "Actions" ∷ []) refl)))
terminal_labels l is_loading (some r) creating updating deleting page p =
    labels-skip (Terminals.key_box p.revealed_key) _ (key_box-keys p.revealed_key)
    ∙ (labels-skip (Terminals.create_dialog creating p) _ (create_terminal-keys creating p)
        ∙ (labels-skip (Terminals.edit_dialog updating p) _ (edit_terminal-keys updating p)
            ∙ (labels-listing (λ (x : Terminal). x.id) (λ (x : Terminal). x.name)
                (Terminals.terminal_row l)
                (pager_part Terminals.per_page (some r.total) page
                  ++ confirm_dialog (has_target p.delete_target) "Delete Terminal"
                      "Are you sure you want to delete this terminal? It will be revoked and cannot be restored."
                      "Delete" deleting Terminals.close_delete Terminals.confirm_delete)
                (terminal_row-keys l) (λ x ps. refl) (simp no_keys) is_loading (some r.items) 3
                (empty_state "No terminals" "Add a terminal to start receiving POS interactions.")
                ("Name" ∷ "Location" ∷ "Status" ∷ "API Key" ∷ "Last Seen" ∷ "Actions" ∷ []) refl)))
