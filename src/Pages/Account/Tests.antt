-- ===== src/Pages/Account/Tests.antt =====
-- The billing page of a tenant without a plan.
use mutell_demo.Prelude.{◌≡◌, refl, false, none, [], ◌∷◌}
use mutell_demo.Format.Plain.{plain}
use mutell_demo.Screen.Colors.{success}
use mutell_demo.Screen.{heading, badge}
use mutell_demo.Pages.Account.{billing_view}

no_plan :
    billing_view plain false false none
    ≡ heading "Billing" ∷ heading "Current Plan" ∷ heading "No Plan" ∷ badge success "Active" ∷ []
unfolding billing_view
no_plan = refl
