-- ===== src/Layout/Sidebar.antt =====
-- The sidebar of portal/src/context/SidebarContext.tsx at a fixed width of the window.
use mutell_demo.Prelude.{ℕ, ◌≤◌, ◌<◌, ◌≡◌, refl, false, not, List, [], ◌∷◌, All, ltb, arith}
use mutell_demo.Layout.{
  SidebarState, handle_resize, handle_toggle, shown_expanded, SidebarEvent, resizes, toggles,
  clicks_backdrop, sidebar_step,
}

unfoldable pub sidebar_run : SidebarState → List SidebarEvent → SidebarState
sidebar_run s [] = s
sidebar_run s (e ∷ events) = sidebar_run (sidebar_step s e) events

-- The event happens at this width.
abbrev pub IsAt : ℕ → SidebarEvent → Type 0
IsAt width (resizes w) = w ≡ width
IsAt width (toggles w) = w ≡ width
IsAt width _ = Unit

-- The provider has seen the width, and a wide window has no mobile menu.
abbrev IsFitted : ℕ → SidebarState → Type 0
IsFitted width s = (s.is_mobile ≡ ltb width 768) × (1024 ≤ width → s.is_mobile_open ≡ false)

sidebar_step-IsFitted :
    (width : ℕ) (s : SidebarState) (e : SidebarEvent)
    → IsAt width e
    → IsFitted width s
    → IsFitted width (sidebar_step s e)
unfolding sidebar_step
sidebar_step-IsFitted width s (resizes w) at h = (ground arith, λ wide. ground arith)
sidebar_step-IsFitted width s (toggles w) at h = (ground arith, λ wide. ground arith)
sidebar_step-IsFitted width s clicks_backdrop at h = (ground arith, λ wide. ground arith)
sidebar_step-IsFitted width s _ at h = h

sidebar_run-IsFitted :
    (width : ℕ) (s : SidebarState) (events : List SidebarEvent)
    → All (IsAt width) events
    → IsFitted width s
    → IsFitted width (sidebar_run s events)
unfolding sidebar_run
sidebar_run-IsFitted width s [] at h = h
sidebar_run-IsFitted width s (e ∷ events) at h =
    sidebar_run-IsFitted width (sidebar_step s e) events at.1
      (sidebar_step-IsFitted width s e at.0 h)

handle_resize-IsFitted : (width : ℕ) (s : SidebarState) → IsFitted width (handle_resize width s)
unfolding handle_resize
handle_resize-IsFitted width s = (refl, λ wide. ground arith)

-- After a resize to a width, and whatever resizes to it, the button of the header, the backdrop, the
-- mouse and the submenus then do at that width: below 768 the sidebar never shows
-- as expanded; from 1024 on no mobile menu is open; and the button of the header then folds or
-- unfolds the sidebar from 1024 on, and else opens or closes the mobile menu, and does nothing to
-- the other of the two.
pub sidebar_run-toggle :
    (width : ℕ) (s : SidebarState) (events : List SidebarEvent)
    → All (IsAt width) events
    → let t = sidebar_run (handle_resize width s) events in
      let u = handle_toggle width t in
      (width < 768 → shown_expanded t ≡ false)
      × (1024 ≤ width → t.is_mobile_open ≡ false)
      × (1024 ≤ width
          → (shown_expanded u ≡ not (shown_expanded t)) × (u.is_mobile_open ≡ t.is_mobile_open))
      × (width < 1024
          → (u.is_mobile_open ≡ not t.is_mobile_open) × (shown_expanded u ≡ shown_expanded t))
unfolding handle_toggle
sidebar_run-toggle width s events at =
    let (mobile, closed) =
      sidebar_run-IsFitted width (handle_resize width s) events at
        (handle_resize-IsFitted width s) in
    (
      λ h. ground arith,
      closed,
      λ h. (ground arith, ground arith),
      λ h. (ground arith, ground arith),
    )
