-- ===== src/Pages/Auth/Passwords.antt =====
-- The password forms accept the same passwords.
use mutell_demo.Prelude.{◌≡◌, ◌≢◌, ◌↔◌, ◌≤◌, String, none, arith, eq_iff, utf16_length}
use mutell_demo.Pages.{Desk}
use mutell_demo.Pages.Auth.{
  SignupForm, signup_start, reset_start, invite_start, PasswordForm, change_start,
}

-- What a password and its repetition have to meet.
pub IsAcceptable : String → String → Type 0
IsAcceptable password confirm = (8 ≤ utf16_length password) × (password ≡ confirm)

-- The sign-up, the reset and the change of a password send their request exactly when the password
-- has at least 8 UTF-16 units and its repetition is the same; the invitation, which has no
-- repetition, exactly when it has 8.
pub forms_agree :
    (form : SignupForm) (change : PasswordForm) (token name password confirm : String) (p : Desk)
    → (((signup_start form p).1 ≢ none) ↔ IsAcceptable form.password form.confirm_password)
      × (((reset_start token password confirm p).1 ≢ none) ↔ IsAcceptable password confirm)
      × (((change_start change).2 ≢ none)
          ↔ IsAcceptable change.new_password change.confirm_password)
      × (((invite_start token name password p).1 ≢ none) ↔ (8 ≤ utf16_length password))
unfolding signup_start reset_start change_start invite_start IsAcceptable
forms_agree form change token name password confirm p = (
  (
    (λ h. ground (arith, eq_iff form.password form.confirm_password)),
    (λ h. ground (arith, eq_iff form.password form.confirm_password)),
  ),
  ((λ h. ground (arith, eq_iff password confirm)), (λ h. ground (arith, eq_iff password confirm))),
  (
    (λ h. ground (arith, eq_iff change.new_password change.confirm_password)),
    (λ h. ground (arith, eq_iff change.new_password change.confirm_password)),
  ),
  ((λ h. ground arith), (λ h. ground arith)),
)
