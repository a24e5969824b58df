-- ===== src/Pages/Admin/Plans/Laws.antt =====
-- What the dialogs of portal/src/app/(app)/admin/plans/page.tsx send.
use mutell_demo.Prelude.{
  ℕ, ◌≡◌, refl, ap, Bool, not, Option, none, some, String, or_else, or_undefined, decimal, whole,
  number_of, number_of-decimal,
}
use mutell_demo.Types.Plan.{Plan}
use mutell_demo.Pages.Admin.Plans.{
  PlansPage, PlanBody, body_of, texts_of, open_edit, update_start, toggle_active,
}

-- The body that names a plan's own values, and another description.
abbrev pub own_values : Plan → String → PlanBody
own_values plan description = record {
  name = some plan.name;
  description = or_undefined description;
  max_terminals = some (whole plan.max_terminals);
  max_users = some (whole plan.max_users);
  max_slots_per_day = some (whole plan.max_slots_per_day);
  retention_days = some (whole plan.retention_days);
  api_rate_limit_per_min = some (whole plan.api_rate_limit_per_min);
  is_active = none;
}

-- The body that says only whether a plan is active.
abbrev pub only_active : Bool → PlanBody
only_active active = record {
  name = none;
  description = none;
  max_terminals = none;
  max_users = none;
  max_slots_per_day = none;
  retention_days = none;
  api_rate_limit_per_min = none;
  is_active = some active;
}

-- Texts of a plan's numbers come to them, beside what the number of users comes to.
own_numbers :
    (plan : Plan) (users : String) (n : ℕ)
    → number_of users ≡ whole n
    → body_of (record (texts_of plan) { max_users = users })
      ≡ record (own_values plan (or_else plan.description "")) { max_users = some (whole n) }
own_numbers plan users n same = λ i. record (own_values plan (or_else plan.description "")) {
  max_terminals = some (number_of-decimal plan.max_terminals i);
  max_users = some (same i);
  max_slots_per_day = some (number_of-decimal plan.max_slots_per_day i);
  retention_days = some (number_of-decimal plan.retention_days i);
  api_rate_limit_per_min = some (number_of-decimal plan.api_rate_limit_per_min i);
}

-- An emptied field comes to 0.
number_of-empty : number_of "" ≡ whole 0
unfolding number_of
number_of-empty = refl

-- The dialog for a plan, opened for it and saved, sends for that plan its own name and numbers;
-- with another text for its users, the number that is typed, and 0 where the field is emptied. The
-- switch of a plan sends that it is active if it was not, or the other way, and no other field.
pub plan_edited :
    (p : PlansPage) (plan : Plan) (users : ℕ)
    → (update_start (open_edit plan p)
        ≡ some (plan.id, own_values plan (or_else plan.description "")))
      × (update_start (record (open_edit plan p) {
        edited = record (open_edit plan p).edited { max_users = decimal users };
      })
          ≡ some (
            plan.id,
            record (own_values plan (or_else plan.description "")) {
              max_users = some (whole users);
            },
          ))
      × (update_start (record (open_edit plan p) {
        edited = record (open_edit plan p).edited { max_users = "" };
      })
          ≡ some (
            plan.id,
            record (own_values plan (or_else plan.description "")) { max_users = some (whole 0) },
          ))
      × (toggle_active plan ≡ (plan.id, only_active (not plan.is_active)))
unfolding update_start open_edit toggle_active
plan_edited p plan users = (
  sent
      (own_numbers plan (decimal plan.max_users) plan.max_users (number_of-decimal plan.max_users)),
  sent (own_numbers plan (decimal users) users (number_of-decimal users)),
  sent (own_numbers plan "" 0 number_of-empty),
  refl,
)
  where
    request : PlanBody → Option (String × PlanBody)
    request body = some (plan.id, body)

    sent : {x y : PlanBody} → x ≡ y → request x ≡ request y
    sent = ap request
