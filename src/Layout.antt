-- ===== src/Layout.antt =====
-- The frame of the app: portal/src/context/SidebarContext.tsx, portal/src/context/ThemeContext.tsx,
-- portal/src/layout/AppHeader.tsx, portal/src/layout/Backdrop.tsx and the margin that
-- portal/src/app/(app)/layout.tsx leaves for the sidebar. Setters become new values of a record.
pub mod Sidebar
pub mod Theme
pub mod Menu
pub mod Header
mod Tests
use mutell_demo.Prelude.{
  ℕ, String, Bool, true, false, not, ◌||◌, Option, none, some, List, [], ◌∷◌, ltb, leb, str_eq,
  or_else, if◌then◌else◌,
}
use mutell_demo.Browser.{Storage}

-- The state of `SidebarProvider`. `is_mobile` and `is_expanded` are its own; what other components
-- see of the latter is `shown_expanded`.
pub record SidebarState : Type 0 where
  pub is_expanded : Bool
  pub is_mobile_open : Bool
  pub is_mobile : Bool
  pub is_hovered : Bool
  pub active_item : Option String
  pub open_submenu : Option String

abbrev pub first_sidebar : SidebarState
first_sidebar = record {
  is_expanded = true;
  is_mobile_open = false;
  is_mobile = false;
  is_hovered = false;
  active_item = none;
  open_submenu = none;
}

-- `handleResize`, at a width of the window.
unfoldable pub handle_resize : ℕ → SidebarState → SidebarState
handle_resize width s =
    let mobile = ltb width 768 in
    record s { is_mobile = mobile; is_mobile_open = if not mobile then false else s.is_mobile_open }

unfoldable pub toggle_sidebar : SidebarState → SidebarState
toggle_sidebar s = record s { is_expanded = not s.is_expanded }

unfoldable pub toggle_mobile_sidebar : SidebarState → SidebarState
toggle_mobile_sidebar s = record s { is_mobile_open = not s.is_mobile_open }

unfoldable pub toggle_submenu : String → SidebarState → SidebarState
toggle_submenu item s = record s {
  open_submenu = elim s.open_submenu as (λ x. Option String) [
    | none ↦ some item
    | some prev ↦ if str_eq prev item then none else some item
  ];
}

-- The `isExpanded` of the context.
abbrev pub shown_expanded : SidebarState → Bool
shown_expanded s = if s.is_mobile then false else s.is_expanded

-- `handleToggle` of `AppHeader`.
unfoldable pub handle_toggle : ℕ → SidebarState → SidebarState
unfolding toggle_sidebar toggle_mobile_sidebar
handle_toggle width s = if leb 1024 width then toggle_sidebar s else toggle_mobile_sidebar s

-- `mainContentMargin` of `AppLayout`.
unfoldable pub main_content_margin : SidebarState → String
main_content_margin s =
    if s.is_mobile_open
    then "ml-0"
    else if shown_expanded s || s.is_hovered
    then "lg:ml-[290px]"
    else "lg:ml-[90px]"

-- `Backdrop`: whether it lies over the page, and what a click on it does.
unfoldable pub backdrop_shown : SidebarState → Bool
backdrop_shown s = s.is_mobile_open

unfoldable pub click_backdrop : SidebarState → SidebarState
unfolding toggle_mobile_sidebar
click_backdrop s = toggle_mobile_sidebar s

pub data SidebarEvent : Type 0 where
  resizes : ℕ → SidebarEvent
  toggles : ℕ → SidebarEvent  -- the header's button, at a width of the window
  hovers : Bool → SidebarEvent
  opens_submenu : String → SidebarEvent
  -- A click on the backdrop, which lies over the page only while the mobile menu is open.
  clicks_backdrop : SidebarEvent

unfoldable pub sidebar_step : SidebarState → SidebarEvent → SidebarState
unfolding handle_resize handle_toggle toggle_submenu backdrop_shown click_backdrop
sidebar_step s (resizes width) = handle_resize width s
sidebar_step s (toggles width) = handle_toggle width s
sidebar_step s (hovers over) = record s { is_hovered = over }
sidebar_step s (opens_submenu item) = toggle_submenu item s
sidebar_step s clicks_backdrop = if backdrop_shown s then click_backdrop s else s

-- The state of `ThemeProvider`, with the storage and the document's class. A theme is any text
-- here: what the storage holds is cast, not checked.
pub record ThemeState : Type 0 where
  pub theme : String
  pub is_initialized : Bool
  pub stored : Option String
  pub is_dark : Bool

abbrev pub first_theme : Option String → ThemeState
first_theme stored = record {
  theme = "light";
  is_initialized = false;
  stored = stored;
  is_dark = false;
}

-- The effect on mount.
unfoldable pub load_theme : ThemeState → ThemeState
load_theme s = record s { theme = or_else s.stored "light"; is_initialized = true }

-- The effect on the theme.
unfoldable pub apply_theme : ThemeState → ThemeState
apply_theme s =
    if s.is_initialized
    then record s { stored = some s.theme; is_dark = str_eq s.theme "dark" }
    else s

unfoldable pub toggle_theme : ThemeState → ThemeState
toggle_theme s = record s { theme = if str_eq s.theme "light" then "dark" else "light" }

-- The first render with its two effects, in their order, and the render that they cause.
unfoldable pub mount_theme : Option String → ThemeState
unfolding load_theme apply_theme
mount_theme stored = let first = first_theme stored in apply_theme (load_theme (apply_theme first))

-- A click on the button, with the effect after its render.
unfoldable pub click_theme : ThemeState → ThemeState
unfolding toggle_theme apply_theme
click_theme s = apply_theme (toggle_theme s)
