-- ===== src/Widgets/Drift.antt =====
-- The switches of the permissions dialog, portal/src/app/(app)/team/page.tsx with
-- portal/src/components/form/switch/Switch.tsx: each keeps the value that it was first drawn with.
use mutell_demo.Prelude.{◌≡◌, refl, String, true, false, not, some, List, is_truthy}
use mutell_demo.Types.Auth.{PermissionsResponse}
use mutell_demo.Widgets.{Toggle, mount_switch, redraw_switch, click_switch}
use mutell_demo.Pages.Team.{TeamPage, granted_of, load_permissions, set_permission, state_of}
use mutell_demo.Pages.Team.Permissions.{listed, state_of-load, state_of-set_permission}

-- The permissions of a user arrive: the switches are drawn with the state from before, then the
-- effect builds the state anew, and they are drawn again.
abbrev pub drawn : List String → PermissionsResponse → TeamPage → String → Toggle
drawn keys fetched p key =
    redraw_switch (state_of (load_permissions keys (some fetched) p) key)
      (mount_switch (state_of p key))

-- When the permissions of the target, an id that is not empty, have come, the switch of a key that
-- the schema lists shows what the dialog held before, off where it held nothing, while the dialog
-- holds and would save what the server said; the first click on it sets the opposite of what it
-- shows, so a permission that is granted and shown as off stays granted.
pub switch_drift :
    (keys : List String) (fetched : PermissionsResponse) (p : TeamPage) (target key : String)
    → p.permissions_target ≡ some target
    → is_truthy target ≡ true
    → listed key keys ≡ true
    → ((drawn keys fetched p key).is_checked ≡ state_of p key)
      × (state_of (load_permissions keys (some fetched) p) key ≡ granted_of key fetched.permissions)
      × ((click_switch false (drawn keys fetched p key)).1 ≡ some (not (state_of p key)))
      × (state_of
            (set_permission key (not (state_of p key)) (load_permissions keys (some fetched) p))
            key
          ≡ not (state_of p key))
unfolding mount_switch redraw_switch click_switch
switch_drift keys fetched p target key aimed full known = (
  refl,
  state_of-load keys fetched p target key aimed full known,
  refl,
  state_of-set_permission (not (state_of p key)) key (load_permissions keys (some fetched) p),
)
