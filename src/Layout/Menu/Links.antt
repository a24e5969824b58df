-- ===== src/Layout/Menu/Links.antt =====
-- The links of the menu of portal/src/layout/AppSidebar.tsx.
use mutell_demo.Prelude.{String, List, [], ◌∷◌, ◌++◌}
use mutell_demo.Types.{UserRole, super_admin, tenant_admin, manager, viewer}
use mutell_demo.Session.{Session}
use mutell_demo.Layout.Menu.{Entry, link, Group, Sidebar}
use mutell_demo.Layout.Menu.Routes.{admin_pages}

-- Where the entries of a menu lead.
unfoldable pub links : List Entry → List String
links [] = []
links (link path label active ∷ es) = path ∷ links es
links (_ ∷ es) = links es

unfoldable pub group_links : List Group → List String
unfolding links
group_links [] = []
group_links (g ∷ gs) = links g.entries ++ group_links gs

-- Every link of the sidebar, from the top down.
unfoldable pub sidebar_links : Sidebar → List String
unfolding group_links
sidebar_links bar = bar.logo ∷ group_links bar.groups

-- What each role is to be offered.
abbrev pub offered : UserRole → List String
offered super_admin = "/" ∷ admin_pages
offered tenant_admin =
    "/" ∷ "/dashboard" ∷ "/slots" ∷ "/analytics" ∷ "/reports" ∷ "/terminals" ∷ "/team" ∷ "/settings"
    ∷ "/profile" ∷ []
offered manager =
    "/" ∷ "/dashboard" ∷ "/slots" ∷ "/analytics" ∷ "/reports" ∷ "/team" ∷ "/settings" ∷ "/profile"
    ∷ []
offered viewer =
    "/" ∷ "/dashboard" ∷ "/slots" ∷ "/analytics" ∷ "/reports" ∷ "/settings" ∷ "/profile" ∷ []
