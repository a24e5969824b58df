-- ===== src/Layout/Menu.antt =====
-- The menu of portal/src/layout/AppSidebar.tsx: its groups, its entries and its submenus.
pub mod Routes
pub mod Links
use mutell_demo.Prelude.{
  ℕ, suc, String, Bool, true, false, not, ◌&&◌, ◌||◌, Option, none, some, List, [], ◌∷◌, ◌++◌,
  is_empty, is_truthy, if◌then◌else◌, str_eq, ◌==◌,
}
use mutell_demo.Session.{User}
use mutell_demo.Access.{is_super_admin, can_manage_team, can_manage_terminals}
use mutell_demo.Layout.{SidebarState, shown_expanded}

pub record SubItem : Type 0 where
  pub name : String
  pub path : String

-- `NavItem`, without its icon.
pub record NavItem : Type 0 where
  pub name : String
  pub path : Option String
  pub sub_items : Option (List SubItem)

abbrev item : String → String → NavItem
item name path = record { name = name; path = some path; sub_items = none }

-- `tenantNav`, `managementNav`, `adminNav`, `settingsNav` and `profileNav`.
abbrev pub tenant_items : List NavItem
tenant_items =
    item "Dashboard" "/dashboard"
    ∷ item "Slots" "/slots"
    ∷ item "Analytics" "/analytics"
    ∷ item "Reports" "/reports"
    ∷ []

unfoldable pub management_items : Option User → List NavItem
unfolding can_manage_terminals can_manage_team
management_items user =
    (if can_manage_terminals user then item "Terminals" "/terminals" ∷ [] else [])
    ++ (if can_manage_team user then item "Team" "/team" ∷ [] else [])

abbrev pub admin_items : List NavItem
admin_items =
    item "Dashboard" "/admin/dashboard"
    ∷ item "Tenants" "/admin/tenants"
    ∷ item "Plans" "/admin/plans"
    ∷ item "AI Providers" "/admin/ai-providers"
    ∷ item "Users" "/admin/users"
    ∷ item "Audit Log" "/admin/audit-log"
    ∷ item "Health" "/admin/health"
    ∷ item "Settings" "/admin/settings"
    ∷ []

abbrev pub settings_items : List NavItem
settings_items = item "Settings" "/settings" ∷ []

abbrev pub profile_items : List NavItem
profile_items = item "Profile" "/profile" ∷ []

-- `mainNav`
unfoldable pub main_items : Option User → List NavItem
unfolding is_super_admin
main_items user = if is_super_admin user then admin_items else tenant_items

-- The submenu that is open, by the type of its group and its index.
abbrev pub OpenSubmenu : Type 0
OpenSubmenu = Option (String × ℕ)

abbrev pub is_open : OpenSubmenu → String → ℕ → Bool
is_open none menu_type index = false
is_open (some (t, i)) menu_type index = str_eq t menu_type && i == index

-- `handleSubmenuToggle`
unfoldable pub handle_submenu_toggle : ℕ → String → OpenSubmenu → OpenSubmenu
handle_submenu_toggle index menu_type prev =
    if is_open prev menu_type index then none else some (menu_type, index)

-- `isActive`
abbrev pub is_active : String → String → Bool
is_active pathname path = str_eq path pathname

abbrev pub any_active : String → List SubItem → Bool
any_active pathname [] = false
any_active pathname (x ∷ xs) = is_active pathname x.path || any_active pathname xs

abbrev pub has_active : String → Option (List SubItem) → Bool
has_active pathname none = false
has_active pathname (some items) = any_active pathname items

-- The loop of the effect over one group: the last match stays.
unfoldable pub match_items : String → String → ℕ → List NavItem → OpenSubmenu → OpenSubmenu
match_items pathname menu_type index [] found = found
match_items pathname menu_type index (n ∷ ns) found =
    match_items pathname menu_type (suc index) ns
      (if has_active pathname n.sub_items then some (menu_type, index) else found)

-- The effect on the path: the submenu that it opens, or none.
unfoldable pub matched_submenu : String → Option User → OpenSubmenu
unfolding match_items main_items management_items
matched_submenu pathname user = match_items pathname "profile" 0 profile_items (
    match_items pathname "settings" 0 settings_items (
      match_items pathname "management" 0 (management_items user)
        (match_items pathname "main" 0 (main_items user) none)))

-- What an item becomes: the button of a submenu, with its index, or a link, each with its text, if
-- there is room for it, and whether it is marked as active; and the links below a submenu, which
-- are folded away unless it is open.
pub data Entry : Type 0 where
  submenu : ℕ → Option String → Bool → Entry
  link : String → Option String → Bool → Entry
  below : Bool → List (String × String × Bool) → Entry

unfoldable pub sub_links : String → List SubItem → List (String × String × Bool)
sub_links pathname [] = []
sub_links pathname (x ∷ xs) = (x.path, x.name, is_active pathname x.path) ∷ sub_links pathname xs

abbrev pub label_if : Bool → String → Option String
label_if roomy name = if roomy then some name else none

-- One item of `renderMenuItems`.
unfoldable pub render_item : Bool → String → OpenSubmenu → String → ℕ → NavItem → List Entry
unfolding sub_links
render_item roomy pathname opened menu_type index n = elim n.sub_items as (λ x. List Entry) [
  | none ↦ elim n.path as (λ x. List Entry) [
    | none ↦ []
    | some path ↦
        if is_truthy path
        then link path (label_if roomy n.name) (is_active pathname path) ∷ []
        else []
  ]
  | some items ↦
      submenu index (label_if roomy n.name) (is_open opened menu_type index)
      ∷ (if roomy
          then below (is_open opened menu_type index) (sub_links pathname items) ∷ []
          else [])
]

-- `renderMenuItems`, from an index on.
unfoldable pub render_menu_items :
    Bool → String → OpenSubmenu → String → ℕ → List NavItem → List Entry
unfolding render_item
render_menu_items roomy pathname opened menu_type index [] = []
render_menu_items roomy pathname opened menu_type index (n ∷ ns) =
    render_item roomy pathname opened menu_type index n
    ++ render_menu_items roomy pathname opened menu_type (suc index) ns

-- A group under its title, which is three dots where there is no room for it.
pub record Group : Type 0 where
  pub title : Option String
  pub entries : List Entry

-- `isExpanded || isHovered || isMobileOpen`
abbrev pub is_roomy : SidebarState → Bool
is_roomy s = shown_expanded s || s.is_hovered || s.is_mobile_open

-- The groups of the menu.
unfoldable pub menu_groups : SidebarState → String → Option User → OpenSubmenu → List Group
unfolding main_items management_items render_menu_items is_super_admin
menu_groups s pathname user opened =
    let roomy = is_roomy s in
    record {
      title = label_if roomy "Menu";
      entries = render_menu_items roomy pathname opened "main" 0 (main_items user);
    }
    ∷ ((if not (is_super_admin user) && not (is_empty (management_items user))
          then record {
            title = label_if roomy "Management";
            entries =
                render_menu_items roomy pathname opened "management" 0 (management_items user);
          }
            ∷ []
          else [])
        ++ (if not (is_super_admin user)
            then record {
              title = label_if roomy "Account";
              entries =
                  render_menu_items roomy pathname opened "settings" 0 settings_items
                  ++ render_menu_items roomy pathname opened "profile" 0 profile_items;
            }
              ∷ []
            else []))

-- `AppSidebar`: where its logo leads, and its menu.
pub record Sidebar : Type 0 where
  pub logo : String
  pub groups : List Group

-- From the state of its provider, the path, the user and its open submenu.
unfoldable pub sidebar_view : SidebarState → String → Option User → OpenSubmenu → Sidebar
unfolding menu_groups
sidebar_view s pathname user opened = record {
  logo = "/";
  groups = menu_groups s pathname user opened;
}

-- `onMouseEnter` and `onMouseLeave` of the sidebar.
unfoldable pub mouse_enter : SidebarState → SidebarState
mouse_enter s = if not (shown_expanded s) then record s { is_hovered = true } else s

unfoldable pub mouse_leave : SidebarState → SidebarState
mouse_leave s = record s { is_hovered = false }
