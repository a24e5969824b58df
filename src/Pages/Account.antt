-- ===== src/Pages/Account.antt =====
-- A user's own pages: portal/src/app/(app)/profile/page.tsx and
-- portal/src/app/(app)/settings/billing/page.tsx.
mod Tests
use mutell_demo.Prelude.{
  ℕ, String, Bool, true, false, Option, none, some, List, [], ◌∷◌, ◌++◌, is_truthy, is_empty, ◌||◌,
  if◌then◌else◌, decimal, ◌+++◌,
}
use mutell_demo.Session.{User, UserUpdates, Session, update_user}
use mutell_demo.Types.Auth.{UpdateUserRequest}
use mutell_demo.Types.Plan.{Plan}
use mutell_demo.Format.{Locale, format_number}
use mutell_demo.Screen.Colors.{success, light}
use mutell_demo.Screen.Badges.{role_color, first_spaced}
use mutell_demo.Screen.{Part, heading, text, badge, bone, button, input, stat}

-- The state of `ProfilePage`: the name as it was when the page was first shown, and what is typed.
abbrev pub first_name : Option User → String
first_name none = ""
first_name (some user) = user.full_name

-- `handleSubmit`
unfoldable pub save_start : Option User → String → Option (String × UpdateUserRequest)
save_start none full_name = none
save_start (some user) full_name =
    if is_truthy user.id
    then some (
      user.id,
      record {
        full_name = some full_name;
        role = none;
        status = none;
        max_concurrent_evaluations = none;
      },
    )
    else none

-- Its `onSuccess`.
unfoldable pub save_finish : String → Session → Session
unfolding update_user
save_finish full_name = update_user (record {
  id = none;
  email = none;
  full_name = some full_name;
  role = none;
  tenant_id = none;
  avatar_url = none;
})

pub data Click : Type 0 where
  save : Click

pub data Field : Type 0 where
  full_name email role : Field

abbrev of_user : (User → String) → Option User → String
of_user f none = ""
of_user f (some user) = f user

-- The profile, without the initial of the name.
unfoldable pub profile_view : Option User → Bool → String → List (Part Click Field)
unfolding role_color first_spaced
profile_view user busy typed =
    let role_of = of_user (λ u. u.role) user in
    heading "Profile"
    ∷ heading (of_user (λ u. u.full_name) user)
    ∷ badge (role_color role_of) (first_spaced role_of)
    ∷ text (of_user (λ u. u.email) user)
    ∷ heading "Edit Profile"
    ∷ input "Full Name" full_name typed false
    ∷ input "Email" email (of_user (λ u. u.email) user) true
    ∷ input "Role" role (first_spaced role_of) true
    ∷ button (if busy then "Saving..." else "Save Changes") busy save
    ∷ []

-- `ss.join(", ")`
unfoldable pub joined : List String → String
joined [] = ""
joined (s ∷ []) = s
joined (s ∷ (t ∷ ts)) = s +++ (", " +++ joined (t ∷ ts))

-- The limits of the plan.
unfoldable pub limits : Locale → Plan → List (Part (Unit {0}) (Unit {0}))
unfolding decimal
limits l plan =
    stat "Max Terminals" (format_number l plan.max_terminals)
    ∷ stat "Max Users" (format_number l plan.max_users)
    ∷ stat "Slots / Day" (format_number l plan.max_slots_per_day)
    ∷ stat "Retention" (decimal plan.retention_days +++ " days")
    ∷ []

-- What the plan includes: a tick or a cross, which is a colour here, and a text.
unfoldable pub features : Plan → List (Part (Unit {0}) (Unit {0}))
unfolding joined decimal
features plan =
    heading "Plan Features"
    ∷ badge (if is_empty plan.allowed_ai_providers then light else success) (
        "AI Providers: "
        +++ (if is_truthy (joined plan.allowed_ai_providers)
            then joined plan.allowed_ai_providers
            else "None"))
    ∷ badge (if plan.custom_prompt_allowed then success else light) "Custom Prompts"
    ∷ badge (if plan.report_export_allowed then success else light) "Report Export"
    ∷ badge success ("API Rate Limit: " +++ (decimal plan.api_rate_limit_per_min +++ "/min"))
    ∷ []

-- The billing page, from its two queries.
unfoldable pub billing_view : Locale → Bool → Bool → Option Plan → List (Part (Unit {0}) (Unit {0}))
unfolding limits features
billing_view l tenant_loading plan_loading plan =
    heading "Billing"
    ∷ (if tenant_loading || plan_loading
        then bone ∷ []
        else heading "Current Plan" ∷ elim plan as (λ x. List (Part (Unit {0}) (Unit {0}))) [
          | none ↦ heading "No Plan" ∷ badge success "Active" ∷ []
          | some known ↦
              heading (if is_truthy known.name then known.name else "No Plan")
              ∷ badge success "Active"
              ∷ (limits l known ++ features known)
        ])
