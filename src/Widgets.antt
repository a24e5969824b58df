-- ===== src/Widgets.antt =====
-- Components that keep a state of their own: portal/src/components/form/Select.tsx,
-- components/form/switch/Switch.tsx, components/common/ChartTab.tsx, components/common/ActionMenu.tsx
-- with components/ui/dropdown, components/ui/modal/index.tsx, portal/src/hooks/useModal.ts and useGoBack.ts.
pub mod Drift
pub mod Menus
mod Tests
use mutell_demo.Prelude.{
  ℕ, String, Bool, true, false, not, ◌||◌, ◌&&◌, Option, none, some, List, [], ◌∷◌, if◌then◌else◌,
  str_eq, ◌==◌, ltb,
}

-- `Select` and `ChartTab`: the value that the component itself keeps and shows.
pub record Choice : Type 0 where
  pub selected : String

-- The first time that it is drawn: `useState(defaultValue)`.
unfoldable pub mount_choice : String → Choice
mount_choice default_value = record { selected = default_value }

-- Drawn again with another `defaultValue`: `useState` takes no notice of it.
unfoldable pub redraw_choice : String → Choice → Choice
redraw_choice default_value c = c

-- `handleChange` of `Select`, and `handleClick` of `ChartTab`: what `onChange` is called with.
unfoldable pub choose : String → Choice → Choice × String
choose value c = (record { selected = value }, value)

-- `Switch`
pub record Toggle : Type 0 where
  pub is_checked : Bool

unfoldable pub mount_switch : Bool → Toggle
mount_switch default_checked = record { is_checked = default_checked }

unfoldable pub redraw_switch : Bool → Toggle → Toggle
redraw_switch default_checked t = t

-- `handleToggle`: `onChange` is called unless the switch is disabled.
unfoldable pub click_switch : Bool → Toggle → Toggle × Option Bool
click_switch disabled t =
    if disabled
    then (t, none)
    else (record { is_checked = not t.is_checked }, some (not t.is_checked))

-- `useModal`
unfoldable pub open_modal : Bool → Bool
open_modal is_open = true

unfoldable pub close_modal : Bool → Bool
close_modal is_open = false

unfoldable pub toggle_modal : Bool → Bool
toggle_modal is_open = not is_open

-- `goBack` of portal/src/hooks/useGoBack.ts, by the length of the history: the path that it pushes,
-- or none where it goes back.
unfoldable pub go_back : ℕ → Option String
go_back history_length = if ltb 1 history_length then none else some "/"

-- Where the mouse goes down: on the toggle of a menu, given by its number, on an item of the
-- dropdown of a menu, or elsewhere.
pub data Target : Type 0 where
  toggle_of : ℕ → Target
  item_of : ℕ → Target
  elsewhere : Target

abbrev inside : ℕ → Target → Bool
inside menu (toggle_of m) = false
inside menu (item_of m) = menu == m
inside menu elsewhere = false

-- `closest(".dropdown-toggle")`: the toggle of any menu.
abbrev on_toggle : Target → Bool
on_toggle (toggle_of m) = true
on_toggle (item_of m) = false
on_toggle elsewhere = false

-- `handleClickOutside`; there is an element to compare with only while the dropdown is open.
unfoldable pub mouse_down : ℕ → Target → Bool → Bool
mouse_down menu target is_open =
    if is_open && not (inside menu target) && not (on_toggle target) then false else is_open

-- The click that follows: the menu's own toggle, or one of its items, which acts and closes.
unfoldable pub click : ℕ → Target → Bool → Bool
click menu (toggle_of m) is_open = if menu == m then not is_open else is_open
click menu (item_of m) is_open = if menu == m then false else is_open
click menu elsewhere is_open = is_open

-- The mouse goes down and up on one place, for one menu of a page.
unfoldable pub press : Target → ℕ → Bool → Bool
unfolding mouse_down click
press target menu is_open = click menu target (mouse_down menu target is_open)

-- The dialogs of a page, by their numbers, and the one `overflow` of the page's body.
pub record Dialogs : Type 0 where
  pub is_open : ℕ → Bool
  pub hidden : Bool

abbrev bool_eq : Bool → Bool → Bool
bool_eq true b = b
bool_eq false b = not b

-- Dialog `i` gets `isOpen = value`: if that is new, the effect's clean-up and the effect run.
unfoldable pub set_open : ℕ → Bool → Dialogs → Dialogs
set_open i value d = record {
  is_open = λ j. if i == j then value else d.is_open j;
  hidden = if bool_eq (d.is_open i) value then d.hidden else value;
}

-- `handleEscape` of dialog `i`, which listens while it is open; its `onClose` closes it.
unfoldable pub escape : ℕ → Dialogs → Dialogs
unfolding set_open
escape i d = if d.is_open i then set_open i false d else d
