-- ===== src/Pages/Auth/View.antt =====
-- What the sign-in pages and portal/src/app/(app)/settings/security/page.tsx show. A `Button` with
-- `loading`, portal/src/components/ui/button/Button.tsx, is disabled while it is set.
use mutell_demo.Prelude.{
  String, Bool, false, not, ◌&&◌, List, [], ◌∷◌, ◌++◌, is_truthy, str_eq, if◌then◌else◌,
}
use mutell_demo.Screen.Colors.{red}
use mutell_demo.Screen.{Part, heading, text, tinted, input, button, shown_if}
use mutell_demo.Pages.{Desk}
use mutell_demo.Pages.Auth.{SignupForm, PasswordForm}

-- The submission of the form, Google's button, and a link.
pub data Click : Type 0 where
  submit google : Click
  follow : String → Click

pub data Field : Type 0 where
  full_name email current_password password confirm_password : Field

-- The message in front of a form.
abbrev pub error_box : Desk → List (Part Click Field)
error_box p = shown_if (is_truthy p.error) (tinted red p.error ∷ [])

unfoldable pub login_view : String → String → Desk → List (Part Click Field)
login_view typed_email typed_password p =
    heading "Sign In"
    ∷ text "Enter your credentials to access your account"
    ∷ (error_box p
        ++ input "Email" email typed_email false
          ∷ input "Password" password typed_password false
          ∷ button "Sign In" p.loading submit
          ∷ text "OR"
          ∷ button "Sign in with Google" false google
          ∷ button "Forgot password?" false (follow "/forgot-password")
          ∷ text "Don't have an account?"
          ∷ button "Sign up" false (follow "/signup")
          ∷ [])

unfoldable pub signup_view : SignupForm → Desk → List (Part Click Field)
signup_view form p =
    heading "Create Account"
    ∷ text "Enter your details to get started"
    ∷ (error_box p
        ++ input "Full Name" full_name form.full_name false
          ∷ input "Email" email form.email false
          ∷ input "Password" password form.password false
          ∷ input "Confirm Password" confirm_password form.confirm_password false
          ∷ button "Create Account" p.loading submit
          ∷ button "Sign in with Google" false google
          ∷ text "Already have an account?"
          ∷ button "Sign in" false (follow "/login")
          ∷ [])

unfoldable pub reset_view : String → String → Desk → List (Part Click Field)
reset_view typed_password confirm p =
    heading "Reset Password"
    ∷ text "Enter your new password below"
    ∷ (error_box p
        ++ input "New Password" password typed_password false
          ∷ input "Confirm Password" confirm_password confirm false
          ∷ button "Reset Password" p.loading submit
          ∷ [])

unfoldable pub invite_view : String → String → Desk → List (Part Click Field)
invite_view typed_name typed_password p =
    heading "Accept Invitation"
    ∷ text "Set up your account to get started"
    ∷ (error_box p
        ++ input "Full Name" full_name typed_name false
          ∷ input "Password" password typed_password false
          ∷ button "Create Account" p.loading submit
          ∷ [])

-- `sent` is whether the link was sent.
unfoldable pub forgot_view : String → Bool → Desk → List (Part Click Field)
forgot_view typed_email sent p =
    heading "Forgot Password"
    ∷ text (if sent then "Check your email" else "Enter your email to receive a reset link")
    ∷ (if sent
        then text "If the email exists, a reset link has been sent."
          ∷ button "Back to sign in" false (follow "/login")
          ∷ []
        else input "Email" email typed_email false ∷ button "Send Reset Link" p.loading submit ∷ [])

-- The hint below the field that repeats the new password.
unfoldable pub mismatch : PasswordForm → Bool
mismatch form =
    is_truthy form.confirm_password && not (str_eq form.new_password form.confirm_password)

unfoldable pub security_view : PasswordForm → List (Part Click Field)
unfolding mismatch
security_view form =
    heading "Security"
    ∷ heading "Change Password"
    ∷ text "Update your password to keep your account secure."
    ∷ input "Current Password" current_password form.current_password false
    ∷ input "New Password" password form.new_password false
    ∷ input "Confirm New Password" confirm_password form.confirm_password false
    ∷ (shown_if (mismatch form) (tinted red "Passwords do not match" ∷ [])
        ++ button (if form.loading then "Changing..." else "Change Password") form.loading submit
          ∷ [])
