-- ===== src/Layout/Tests.antt =====
-- The frame of the app in a narrow and in a wide window, and for two users.
use mutell_demo.Prelude.{◌≤◌, ◌<◌, ◌≡◌, refl, true, false, not, none, some, List, [], ◌∷◌}
use mutell_demo.Session.{User, Session}
use mutell_demo.Layout.{
  first_sidebar, handle_resize, handle_toggle, shown_expanded, SidebarEvent, toggles, hovers,
  clicks_backdrop, main_content_margin, sidebar_step,
}
use mutell_demo.Layout.Sidebar.{sidebar_run, sidebar_run-toggle}

abbrev events : List SidebarEvent
events = toggles 600 ∷ hovers true ∷ clicks_backdrop ∷ []

narrow :
    main_content_margin (sidebar_run (handle_resize 600 first_sidebar) events) ≡ "lg:ml-[290px]"
unfolding main_content_margin sidebar_run handle_resize sidebar_step
narrow = refl

sidebar_run-toggle_example :
    let t = sidebar_run (handle_resize 600 first_sidebar) events in
    let u = handle_toggle 600 t in
    (600 < 768 → shown_expanded t ≡ false)
    × (1024 ≤ 600 → t.is_mobile_open ≡ false)
    × (1024 ≤ 600
        → (shown_expanded u ≡ not (shown_expanded t)) × (u.is_mobile_open ≡ t.is_mobile_open))
    × (600 < 1024
        → (u.is_mobile_open ≡ not t.is_mobile_open) × (shown_expanded u ≡ shown_expanded t))
sidebar_run-toggle_example = sidebar_run-toggle 600 first_sidebar events (refl, (tt, (tt, tt)))

abbrev root : User
root = record {
  id = "u0";
  email = "root@mutell.example";
  full_name = "Root";
  role = "super_admin";
  tenant_id = none;
  avatar_url = none;
}

abbrev restored_root : Session
restored_root = record {
  user = some root;
  is_loading = false;
  storage = record { access_token = some "a"; refresh_token = some "r"; theme = none };
}
