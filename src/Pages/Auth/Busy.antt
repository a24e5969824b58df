-- ===== src/Pages/Auth/Busy.antt =====
-- The forms of the sign-in pages while their request is under way.
use mutell_demo.Prelude.{arith, ◌≡◌, ◌≢◌, String, false, none, List, [], ◌∷◌}
use mutell_demo.Browser.{Failure}
use mutell_demo.Screen.{Part, clicks}
use mutell_demo.Pages.{Desk, err}
use mutell_demo.Pages.Auth.{
  SignupForm, PasswordForm, login_start, login_finish, signup_start, signup_finish, reset_start,
  reset_finish, invite_start, invite_finish, forgot_start, forgot_finish, change_start,
  change_finish,
}
use mutell_demo.Pages.Auth.View.{
  Click, Field, submit, login_view, signup_view, reset_view, invite_view, forgot_view,
  security_view,
}

-- How often the clicks that a page offers submit its form.
unfoldable pub submits : List Click → List Click
submits [] = []
submits (submit ∷ cs) = submit ∷ submits cs
submits (_ ∷ cs) = submits cs

-- The form of a page can be submitted, or it cannot.
abbrev pub IsIdle : List (Part Click Field) → Type 0
IsIdle ps = submits (clicks ps) ≡ submit ∷ []

abbrev pub IsBusy : List (Part Click Field) → Type 0
IsBusy ps = submits (clicks ps) ≡ []

-- While the request of a sign-in page or of the password form is under way, its form cannot be
-- submitted again, so that there is one request at a time; and when the request has failed, the form
-- can be submitted again.
pub one_request :
    (email password confirm token name : String) (form : SignupForm) (change : PasswordForm)
    (p : Desk) (f : Failure)
    → (IsBusy (login_view email password (login_start p))
        × IsIdle (login_view email password (login_finish (err f) p)))
      × (((signup_start form p).1 ≢ none → IsBusy (signup_view form (signup_start form p).0))
          × IsIdle (signup_view form (signup_finish (err f) p)))
      × (((reset_start token password confirm p).1 ≢ none
            → IsBusy (reset_view password confirm (reset_start token password confirm p).0))
          × IsIdle (reset_view password confirm (reset_finish (err f) p)))
      × (((invite_start token name password p).1 ≢ none
            → IsBusy (invite_view name password (invite_start token name password p).0))
          × IsIdle (invite_view name password (invite_finish (err f) p)))
      × (IsBusy (forgot_view email false (forgot_start p))
          × IsIdle (forgot_view email (forgot_finish (err f) p).1 (forgot_finish (err f) p).0))
      × (((change_start change).2 ≢ none → IsBusy (security_view (change_start change).0))
          × IsIdle (security_view (change_finish (err f) change).0))
unfolding login_start login_finish signup_start signup_finish reset_start reset_finish invite_start
    invite_finish forgot_start forgot_finish change_start change_finish login_view signup_view
    reset_view invite_view forgot_view security_view clicks submits
one_request email password confirm token name form change p f = (
  (ground arith, ground arith),
  (λ sent. ground (arith, sent), ground arith),
  (λ sent. ground (arith, sent), ground arith),
  (λ sent. ground (arith, sent), ground arith),
  (ground arith, ground arith),
  (λ sent. ground (arith, sent), ground arith),
)
