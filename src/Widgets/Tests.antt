-- ===== src/Widgets/Tests.antt =====
-- The widgets of portal/src/components on the permissions dialog and on two menus.
use mutell_demo.Prelude.{
  ℕ, ◌≡◌, refl, String, Bool, true, false, not, none, some, List, [], ◌∷◌, ◌==◌, if◌then◌else◌,
  lookup, arith,
}
use mutell_demo.Types.{viewer}
use mutell_demo.Types.Auth.{PermissionsResponse}
use mutell_demo.Pages.Team.{TeamPage, load_permissions, set_permission, state_of, granted_of}
use mutell_demo.Widgets.{
  Dialogs, click_switch, escape, item_of, elsewhere, press, set_open, toggle_of,
}
use mutell_demo.Widgets.Drift.{drawn, switch_drift}
use mutell_demo.Widgets.Menus.{press_lem}

abbrev team : TeamPage
team = record {
  invite_open = false;
  invite_email = "";
  invite_name = "";
  invite_role = viewer;
  edit_open = false;
  editing_user = none;
  edit_name = "";
  edit_role = viewer;
  edit_concurrency = "1";
  delete_target = none;
  permissions_open = true;
  permissions_target = some "u1";
  permissions_state = [];
}

abbrev fetched : PermissionsResponse
fetched = record {
  user_id = "u1";
  permissions = record { permission = "create_notes"; granted = true } ∷ [];
}

abbrev keys : List String
keys = "create_notes" ∷ []

switch_drift_example :
    ((drawn keys fetched team "create_notes").is_checked ≡ false)
    × (state_of (load_permissions keys (some fetched) team) "create_notes" ≡ true)
    × ((click_switch false (drawn keys fetched team "create_notes")).1 ≡ some true)
    × (state_of
          (set_permission "create_notes" true (load_permissions keys (some fetched) team))
          "create_notes"
        ≡ true)
unfolding click_switch lookup granted_of
switch_drift_example = switch_drift keys fetched team "u1" "create_notes" refl refl refl

abbrev closed : ℕ → Bool
closed menu = false

press_lem_example :
    ((menu : ℕ) → press elsewhere menu (closed menu) ≡ false)
    × ((menu : ℕ) → press (item_of 1) menu (closed menu) ≡ false)
    × ((menu : ℕ)
        → press (toggle_of 1) menu (closed menu)
          ≡ (if menu == 1 then not (closed menu) else closed menu))
    × (press (toggle_of 2) 1 (press (toggle_of 1) 1 false) ≡ true)
    × (press (toggle_of 2) 2 (press (toggle_of 1) 2 false) ≡ true)
press_lem_example = press_lem 1 2 closed (λ e. omega (arith, e))

-- Of two dialogs on top of each other one is closed: the page behind the other can be scrolled.
abbrev no_dialogs : Dialogs
no_dialogs = record { is_open = λ i. false; hidden = false }

uncovered :
    ((set_open 1 true (set_open 0 true no_dialogs)).hidden ≡ true)
    × ((escape 1 (set_open 1 true (set_open 0 true no_dialogs))).hidden ≡ false)
    × ((escape 1 (set_open 1 true (set_open 0 true no_dialogs))).is_open 0 ≡ true)
unfolding set_open escape
uncovered = (refl, refl, refl)
