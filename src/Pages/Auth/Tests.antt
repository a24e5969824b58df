-- ===== src/Pages/Auth/Tests.antt =====
-- The theorems about the sign-in pages at concrete forms and answers.
use mutell_demo.Prelude.{◌≡◌, ◌≢◌, ◌≤◌, ◌↔◌, inl, refl, false, none, some, [], utf16_length}
use mutell_demo.Browser.{Failure, empty_storage}
use mutell_demo.Session.{User, LoginData}
use mutell_demo.Access.{blank, content}
use mutell_demo.Pages.{Desk, ok, err, landing}
use mutell_demo.Pages.Auth.{
  SignupForm, PasswordForm, signup_start, reset_start, invite_start, change_start, login_start,
  login_finish, signup_finish, reset_finish, invite_finish, forgot_start, forgot_finish,
  change_finish,
}
use mutell_demo.Pages.Auth.View.{
  login_view, signup_view, reset_view, invite_view, forgot_view, security_view,
}
use mutell_demo.Pages.Auth.Busy.{IsBusy, IsIdle, one_request}
use mutell_demo.Pages.Auth.Passwords.{IsAcceptable, forms_agree}
use mutell_demo.Pages.Auth.SignIn.{view_of, login_finish_shown, signed_up_bounced}

abbrev eve : User
eve = record {
  id = "u3";
  email = "eve@shop.example";
  full_name = "Eve";
  role = "viewer";
  tenant_id = none;
  avatar_url = none;
}

abbrev answer : LoginData
answer = record { access_token = "a1"; refresh_token = "r1"; user = eve }

abbrev desk : Desk
desk = record {
  session = record { user = none; is_loading = false; storage = empty_storage };
  error = "";
  loading = false;
  toasts = [];
  path = none;
  href = none;
}

abbrev form : SignupForm
form = record {
  full_name = "Eve";
  email = "eve@shop.example";
  password = "password";
  confirm_password = "passwort";
}

abbrev change : PasswordForm
change = record {
  current_password = "old";
  new_password = "short";
  confirm_password = "short";
  loading = false;
}

-- Where both rules are broken, sign-up names the repetition and reset the length.
both_broken :
    ((reset_start "t" "short" "other" desk).0.error ≡ "Password must be at least 8 characters")
    × ((signup_start form desk).1 ≡ none)
    × (utf16_length "p😀" ≡ 3)
unfolding reset_start signup_start utf16_length
both_broken = (refl, refl, refl)

forms_agree_example :
    (((signup_start form desk).1 ≢ none) ↔ IsAcceptable "password" "passwort")
    × (((reset_start "t" "longer than 8" "longer than 8" desk).1 ≢ none)
        ↔ IsAcceptable "longer than 8" "longer than 8")
    × (((change_start change).2 ≢ none) ↔ IsAcceptable "short" "short")
    × (((invite_start "t" "Eve" "longer than 8" desk).1 ≢ none)
        ↔ (8 ≤ utf16_length "longer than 8"))
forms_agree_example = forms_agree form change "t" "Eve" "longer than 8" "longer than 8" desk

login_finish_shown_example :
    let t = login_finish (ok answer) desk in
    (t.path ≡ some (landing "viewer")) × ((view_of (landing "viewer") t.session).screen ≡ content)
login_finish_shown_example = login_finish_shown desk answer refl

signed_up_bounced_example :
    let t = signup_finish (ok answer) desk in
    (t.session.storage.access_token ≡ some "a1")
    × (t.session.storage.refresh_token ≡ some "r1")
    × (t.path ≡ some (landing "viewer"))
    × (view_of (landing "viewer") t.session ≡ record { screen = blank; redirect = some "/login" })
signed_up_bounced_example = signed_up_bounced desk answer "" (refl, refl) _ (inl refl)

abbrev no_answer : Failure
no_answer = record { response = none }

abbrev longer : PasswordForm
longer = record change { new_password = "password"; confirm_password = "password" }

one_request_example :
    (IsBusy (login_view "e" "password" (login_start desk))
      × IsIdle (login_view "e" "password" (login_finish (err no_answer) desk)))
    × (((signup_start form desk).1 ≢ none → IsBusy (signup_view form (signup_start form desk).0))
        × IsIdle (signup_view form (signup_finish (err no_answer) desk)))
    × (((reset_start "t" "password" "password" desk).1 ≢ none
          → IsBusy
              (reset_view "password" "password" (reset_start "t" "password" "password" desk).0))
        × IsIdle (reset_view "password" "password" (reset_finish (err no_answer) desk)))
    × (((invite_start "t" "Eve" "password" desk).1 ≢ none
          → IsBusy (invite_view "Eve" "password" (invite_start "t" "Eve" "password" desk).0))
        × IsIdle (invite_view "Eve" "password" (invite_finish (err no_answer) desk)))
    × (IsBusy (forgot_view "e" false (forgot_start desk))
        × IsIdle (
            forgot_view "e"
              (forgot_finish (err no_answer) desk).1
              (forgot_finish (err no_answer) desk).0))
    × (((change_start longer).2 ≢ none → IsBusy (security_view (change_start longer).0))
        × IsIdle (security_view (change_finish (err no_answer) longer).0))
one_request_example = one_request "e" "password" "password" "t" "Eve" form longer desk no_answer
