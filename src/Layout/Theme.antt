-- ===== src/Layout/Theme.antt =====
-- The theme of portal/src/context/ThemeContext.tsx over clicks and reloads.
use mutell_demo.Prelude.{
  ℕ, zero, suc, ◌≡◌, ◌≢◌, refl, String, true, Option, some, or_else-ne, str_eq, eq_iff, arith,
  if_intro, ◌∙◌, sym,
}
use mutell_demo.Layout.{ThemeState, mount_theme, click_theme, toggle_theme}

unfoldable pub theme_clicks : ℕ → ThemeState → ThemeState
theme_clicks zero s = s
theme_clicks (suc n) s = theme_clicks n (click_theme s)

-- The storage and the document show the theme, which is not empty.
abbrev IsApplied : ThemeState → Type 0
IsApplied s =
    (s.is_initialized ≡ true)
    × (s.stored ≡ some s.theme)
    × (s.is_dark ≡ str_eq s.theme "dark")
    × (s.theme ≢ "")

mount_theme-IsApplied : (stored : Option String) → IsApplied (mount_theme stored)
unfolding mount_theme
mount_theme-IsApplied stored = (refl, refl, refl, or_else-ne stored "light" (λ e. cc))

toggle_theme-ne : (s : ThemeState) → (toggle_theme s).theme ≢ ""
unfolding toggle_theme
toggle_theme-ne s =
    if_intro (λ t. t ≢ "") (str_eq s.theme "light") (λ light. λ e. cc) (λ other. λ e. cc)

mount_theme-some :
    (t : String)
    → t ≢ ""
    → ((mount_theme (some t)).theme ≡ t) × ((mount_theme (some t)).is_dark ≡ str_eq t "dark")
unfolding mount_theme
mount_theme-some t full = (ground (arith, eq_iff t ""), ground (arith, eq_iff t ""))

click_theme-IsApplied : (s : ThemeState) → IsApplied s → IsApplied (click_theme s)
unfolding click_theme
click_theme-IsApplied s h =
    let full = toggle_theme-ne s in
    (ground arith, ground arith, ground arith, λ e. full (ground arith))

theme_clicks-IsApplied : (n : ℕ) (s : ThemeState) → IsApplied s → IsApplied (theme_clicks n s)
unfolding theme_clicks
theme_clicks-IsApplied zero s h = h
theme_clicks-IsApplied (suc n) s h =
    theme_clicks-IsApplied n (click_theme s) (click_theme-IsApplied s h)

-- After the first render and any number of clicks, whatever was stored before, the storage holds
-- the theme that is shown, the document is dark exactly if that is the dark theme, and a reload
-- shows the same theme again.
pub mount_theme-clicks :
    (stored : Option String) (n : ℕ)
    → let s = theme_clicks n (mount_theme stored) in
      (s.stored ≡ some s.theme)
      × (s.is_dark ≡ str_eq s.theme "dark")
      × ((mount_theme s.stored).theme ≡ s.theme)
      × ((mount_theme s.stored).is_dark ≡ s.is_dark)
mount_theme-clicks stored n =
    let (on, kept, dark, full) =
      theme_clicks-IsApplied n (mount_theme stored) (mount_theme-IsApplied stored) in
    let again = mount_theme-some (theme_clicks n (mount_theme stored)).theme full in
    (kept, dark, rw kept again.0, rw kept again.1 ∙ sym dark)
