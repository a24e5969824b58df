-- ===== src/Pages/Auth/SignIn.antt =====
-- Where the ways to sign in leave the user, with the layouts of portal/src/app.
use mutell_demo.Prelude.{
  ◌≡◌, ◌⊎◌, inl, inr, refl, String, Bool-cases, true, false, none, some, arith, str_eq, is_truthy,
  if◌then◌else◌,
}
use mutell_demo.Session.{User, Session, LoginData, first_render, mount, restored, found}
use mutell_demo.Access.{View, content, blank, app_layout, admin_page, is_super_admin}
use mutell_demo.Pages.{Desk, ok, landing}
use mutell_demo.Pages.Auth.{login_finish, google_sign_in, signup_finish, invite_finish}

-- The layouts that stand round the page of a path.
abbrev pub view_of : String → Session → View
view_of path s = if str_eq path "/admin/dashboard" then admin_page s else app_layout s

view_of_signed_in :
    (role : String) (u : User) (s : Session)
    → u.role ≡ role
    → s.user ≡ some u
    → s.is_loading ≡ false
    → (view_of (landing role) s).screen ≡ content
unfolding app_layout admin_page is_super_admin
view_of_signed_in role u s same who idle = elim (Bool-cases (str_eq role "super_admin")) [
  | inl admin ↦ rw admin (ground arith)
  | inr other ↦ rw other (ground arith)
]

-- After a sign-in by password, with no session being restored, the browser is sent to the page of
-- the user's role, and its layouts show it.
pub login_finish_shown :
    (p : Desk) (d : LoginData)
    → p.session.is_loading ≡ false
    → let t = login_finish (ok d) p in
      (t.path ≡ some (landing d.user.role))
      × ((view_of (landing d.user.role) t.session).screen ≡ content)
unfolding login_finish
login_finish_shown p d idle = (refl, view_of_signed_in d.user.role d.user _ refl refl idle)

-- Nobody is signed in, and nothing is being restored.
abbrev pub IsSignedOut : Session → Type 0
IsSignedOut s = (s.user ≡ none) × (s.is_loading ≡ false)

view_of_signed_out :
    (role : String) (s : Session)
    → IsSignedOut s
    → view_of (landing role) s ≡ record { screen = blank; redirect = some "/login" }
unfolding app_layout admin_page
view_of_signed_out role s h = elim (Bool-cases (str_eq role "super_admin")) [
  | inl admin ↦ rw admin (ground arith)
  | inr other ↦ rw other (ground arith)
]

-- After a sign-up, or a sign-in with Google, by somebody who was signed out, both tokens are
-- stored and the browser is sent to the page of the role; but the session still has no user, so the
-- layouts show nothing and send the browser to the login page.
pub signed_up_bounced :
    (p : Desk) (d : LoginData) (advice : String)
    → IsSignedOut p.session
    → (t : Desk) → (t ≡ signup_finish (ok d) p) ⊎ (t ≡ google_sign_in advice (some (ok d)) p)
    → (t.session.storage.access_token ≡ some d.access_token)
      × (t.session.storage.refresh_token ≡ some d.refresh_token)
      × (t.path ≡ some (landing d.user.role))
      × (view_of (landing d.user.role) t.session
          ≡ record { screen = blank; redirect = some "/login" })
unfolding signup_finish google_sign_in
signed_up_bounced p d advice out t (inl e) =
    rw e (refl, refl, refl, view_of_signed_out d.user.role _ out)
signed_up_bounced p d advice out t (inr e) =
    rw e (refl, refl, refl, view_of_signed_out d.user.role _ out)

-- After an accepted invitation with an access token that is not empty, the portal is loaded anew;
-- it then finds the stored token and asks for the user, and once the answer is there the layouts
-- show the page of the user's role.
pub invited_shown :
    (p : Desk) (d : LoginData)
    → is_truthy d.access_token ≡ true
    → let t = invite_finish (ok d) p in
      let (s, asks) = mount (first_render t.session.storage) in
      (t.href ≡ some (landing d.user.role))
      × (asks ≡ true)
      × ((view_of (landing d.user.role) (restored (found d.user) s)).screen ≡ content)
unfolding invite_finish mount restored
invited_shown p d full = (refl, ground arith, view_of_signed_in d.user.role d.user _ refl refl refl)
