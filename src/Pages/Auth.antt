-- ===== src/Pages/Auth.antt =====
-- The sign-in pages: portal/src/app/(auth)/{login,signup,forgot-password}/page.tsx,
-- portal/src/app/(auth)/{reset-password,invite}/[token]/page.tsx, and the password form of
-- portal/src/app/(app)/settings/security/page.tsx. A handler is cut at its await: `start` gives the
-- request that it sends, if any, and `finish` goes on with the answer. The fields' `required`
-- attributes are the browser's business.
pub mod Passwords
pub mod SignIn
pub mod View
pub mod Busy
mod Tests
use mutell_demo.Prelude.{
  ℕ, String, Bool, true, false, not, ◌||◌, Option, none, some, ltb, str_eq, or_else, if◌then◌else◌,
  utf16_length, List, [], ◌∷◌, ◌++◌,
}
use mutell_demo.Browser.{Failure, detail_of, set_tokens}
use mutell_demo.Session.{Session, LoginData, login}
use mutell_demo.Types.Auth.{RegisterRequest}
use mutell_demo.Pages.{Answer, ok, err, Toast, success, failure, Desk, show, landing}

-- The tokens go to `localStorage`; the session's user is left as it is.
abbrev keep_tokens : LoginData → Desk → Desk
keep_tokens d p = record p {
  session = record p.session {
    storage = set_tokens d.access_token d.refresh_token p.session.storage;
  };
}

-- login: `handleSubmit`.
unfoldable pub login_start : Desk → Desk
login_start p = record p { error = ""; loading = true }

unfoldable pub login_finish : Answer LoginData → Desk → Desk
unfolding login
login_finish (ok d) p =
    show (success "Signed in successfully")
      (record p { session = login d p.session; path = some (landing d.user.role); loading = false })
login_finish (err f) p = record p {
  error = or_else (detail_of f) "Invalid credentials";
  loading = false;
}

-- login and signup: `handleGoogleSignIn`. Google's script calls back with a credential, which the
-- server answers; `none` stands for a script that is not there. `advice` is the page's own text.
unfoldable pub google_sign_in : String → Option (Answer LoginData) → Desk → Desk
google_sign_in advice none p = show (failure advice) p
google_sign_in advice (some (ok d)) p =
    show (success "Signed in with Google")
      (record (keep_tokens d p) { path = some (landing d.user.role) })
google_sign_in advice (some (err f)) p = show (failure "Google sign-in failed. Please try again.") p

pub record SignupForm : Type 0 where
  pub full_name : String
  pub email : String
  pub password : String
  pub confirm_password : String

abbrev too_short : String → Bool
too_short password = ltb (utf16_length password) 8

-- signup: `handleSubmit`.
unfoldable pub signup_start : SignupForm → Desk → Desk × Option RegisterRequest
signup_start form p =
    let q = record p { error = "" } in
    if not (str_eq form.password form.confirm_password)
    then (show (failure "Passwords do not match") q, none)
    else if too_short form.password
    then (show (failure "Password must be at least 8 characters") q, none)
    else (
      record q { loading = true },
      some (record {
        email = form.email;
        full_name = form.full_name;
        password = form.password;
        tenant_slug = none;
      }),
    )

unfoldable pub signup_finish : Answer LoginData → Desk → Desk
signup_finish (ok d) p =
    show (success "Account created successfully")
      (record (keep_tokens d p) { path = some (landing d.user.role); loading = false })
signup_finish (err f) p = record p {
  error = or_else (detail_of f) "Registration failed. Please try again.";
  loading = false;
}

-- reset-password: `handleSubmit`; the request carries the link's token and the new password.
unfoldable pub reset_start : String → String → String → Desk → Desk × Option (String × String)
reset_start token password confirm p =
    if too_short password
    then (record p { error = "Password must be at least 8 characters" }, none)
    else if not (str_eq password confirm)
    then (record p { error = "Passwords do not match" }, none)
    else (record p { error = ""; loading = true }, some (token, password))

unfoldable pub reset_finish : Answer (Unit {0}) → Desk → Desk
reset_finish (ok _) p =
    show (success "Password reset successfully")
      (record p { path = some "/login"; loading = false })
reset_finish (err f) p = record p {
  error = "Failed to reset password. The link may have expired.";
  loading = false;
}

-- invite: `handleSubmit`; the request carries token, name and password.
unfoldable pub invite_start :
    String → String → String → Desk → Desk × Option (String × String × String)
invite_start token full_name password p =
    if too_short password
    then (record p { error = "Password must be at least 8 characters" }, none)
    else (record p { error = ""; loading = true }, some (token, full_name, password))

-- The page is left by `window.location.href`, which loads the portal anew.
unfoldable pub invite_finish : Answer LoginData → Desk → Desk
invite_finish (ok d) p =
    show (success "Account created successfully")
      (record (keep_tokens d p) { href = some (landing d.user.role); loading = false })
invite_finish (err f) p = record p { error = "Invalid or expired invitation"; loading = false }

-- forgot-password: `handleSubmit`; true if the link was sent.
unfoldable pub forgot_start : Desk → Desk
forgot_start p = record p { loading = true }

unfoldable pub forgot_finish : Answer (Unit {0}) → Desk → Desk × Bool
forgot_finish (ok _) p = (show (success "Reset link sent") (record p { loading = false }), true)
forgot_finish (err f) p =
    (show (failure "Failed to send reset link") (record p { loading = false }), false)

-- settings/security.
pub record PasswordForm : Type 0 where
  pub current_password : String
  pub new_password : String
  pub confirm_password : String
  pub loading : Bool

unfoldable pub change_start : PasswordForm → PasswordForm × Option Toast × Option (String × String)
change_start form =
    if too_short form.new_password
    then (form, some (failure "New password must be at least 8 characters"), none)
    else if not (str_eq form.new_password form.confirm_password)
    then (form, some (failure "Passwords do not match"), none)
    else (record form { loading = true }, none, some (form.current_password, form.new_password))

unfoldable pub change_finish : Answer (Unit {0}) → PasswordForm → PasswordForm × Toast
change_finish (ok _) form = (
  record { current_password = ""; new_password = ""; confirm_password = ""; loading = false },
  success "Password changed successfully",
)
change_finish (err f) form =
    (record form { loading = false }, failure (or_else (detail_of f) "Failed to change password"))
