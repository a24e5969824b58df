-- ===== src/Layout/Header.antt =====
-- portal/src/layout/AppHeader.tsx.
use mutell_demo.Prelude.{
  String, Bool, false, not, ◌&&◌, ◌||◌, Option, none, some, List, [], ◌∷◌, str_eq,
}
use mutell_demo.Session.{User, Session, logout}
use mutell_demo.Screen.Badges.{first_spaced}
use mutell_demo.Screen.{Part, text, input, button}

-- `toggleApplicationMenu`
unfoldable pub toggle_application_menu : Bool → Bool
toggle_application_menu is_open = not is_open

-- `handleKeyDown`, with the meta and the control key: whether it moves the focus to the search box
-- in the place of what the browser does.
unfoldable pub handle_key_down : Bool → Bool → String → Bool
handle_key_down meta_key ctrl_key key = (meta_key || ctrl_key) && str_eq key "k"

-- `handleLogout`: the session, and the path that is pushed at once.
unfoldable pub handle_logout : Session → Session × String
unfolding logout
handle_logout s = (logout s, "/login")

pub data Click : Type 0 where
  toggle_sidebar application_menu toggle_theme sign_out : Click

pub data Field : Type 0 where
  search : Field

abbrev pub of_user : (User → String) → Option User → String
of_user f none = ""
of_user f (some user) = f user

-- The header, but for the initial of the name. Nothing reads what is typed in its search box.
unfoldable pub header_view : Option User → String → List (Part Click Field)
unfolding first_spaced
header_view user typed =
    button "Toggle Sidebar" false toggle_sidebar
    ∷ input "" search typed false
    ∷ button "" false application_menu
    ∷ button "" false toggle_theme
    ∷ text (of_user (λ u. u.full_name) user)
    ∷ text (of_user (λ u. first_spaced u.role) user)
    ∷ button "Sign out" false sign_out
    ∷ []
