-- ===== src/Access/Guards.antt =====
-- What the layouts show, by who is signed in.
use mutell_demo.Prelude.{◌≡◌, ◌≢◌, ◌↔◌, true, false, none, arith}
use mutell_demo.Session.{Session}
use mutell_demo.Access.{content, home, app_layout, admin_page, is_super_admin}

-- A page of the app is shown exactly to a user whose session has been restored, and an admin page
-- exactly to one who is a super admin besides; no layout redirects while the session is being
-- restored.
pub shown_iff :
    (s : Session)
    → (((app_layout s).screen ≡ content) ↔ ((s.is_loading ≡ false) × (s.user ≢ none)))
      × (((admin_page s).screen ≡ content)
          ↔ ((s.is_loading ≡ false) × (is_super_admin s.user ≡ true)))
      × (s.is_loading ≡ true
          → ((home s).redirect ≡ none)
            × ((app_layout s).redirect ≡ none)
            × ((admin_page s).redirect ≡ none))
unfolding app_layout admin_page home is_super_admin
shown_iff s = (
  ((λ e. ground arith), (λ h. ground arith)),
  ((λ e. ground arith), (λ h. ground arith)),
  λ e. (ground arith, ground arith, ground arith),
)
