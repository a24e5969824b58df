-- ===== src/Widgets/Menus.antt =====
-- The menus of a page, portal/src/components/common/ActionMenu.tsx.
use mutell_demo.Prelude.{ℕ, ◌≡◌, ◌≢◌, Bool, true, false, not, ◌==◌, if◌then◌else◌, arith}
use mutell_demo.Widgets.{toggle_of, item_of, elsewhere, press}

-- A press on a place away from the menus closes every menu, and so does one on an item, after its
-- action; a press on the toggle of a menu turns that menu over and leaves every other as it is, so
-- that two presses on the toggles of two menus that are closed leave both open.
pub press_lem :
    (m n : ℕ) (was_open : ℕ → Bool)
    → m ≢ n
    → ((menu : ℕ) → press elsewhere menu (was_open menu) ≡ false)
      × ((menu : ℕ) → press (item_of m) menu (was_open menu) ≡ false)
      × ((menu : ℕ)
          → press (toggle_of m) menu (was_open menu)
            ≡ (if menu == m then not (was_open menu) else was_open menu))
      × (press (toggle_of n) m (press (toggle_of m) m false) ≡ true)
      × (press (toggle_of n) n (press (toggle_of m) n false) ≡ true)
unfolding press
press_lem m n was_open apart =
    (λ menu. ground arith, λ menu. ground arith, λ menu. ground arith, ground arith, ground arith)
