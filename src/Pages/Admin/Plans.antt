-- ===== src/Pages/Admin/Plans.antt =====
-- The plans, portal/src/app/(app)/admin/plans/page.tsx.
pub mod Laws
pub mod Tests
use mutell_demo.Prelude.{
  ℕ, String, Bool, true, false, not, Option, none, some, List, [], ◌∷◌, ◌++◌, or_else, or_undefined,
  if◌then◌else◌, is_blank, decimal, Number, number_of, ◌+++◌,
}
use mutell_demo.Types.Plan.{Plan}
use mutell_demo.Format.{Locale, format_number}
use mutell_demo.Screen.{
  Part, heading, text, button, menu, input, Item, chips, modal, empty_state, status_part, listing,
}

-- The texts of one of the two forms.
pub record PlanTexts : Type 0 where
  pub name : String
  pub description : String
  pub max_terminals : String
  pub max_users : String
  pub max_slots : String
  pub retention : String
  pub rate_limit : String

abbrev pub first_texts : PlanTexts
first_texts = record {
  name = "";
  description = "";
  max_terminals = "5";
  max_users = "10";
  max_slots = "1000";
  retention = "90";
  rate_limit = "60";
}

-- The state of `AdminPlansPage`.
pub record PlansPage : Type 0 where
  pub create_open : Bool
  pub edit_open : Bool
  pub editing_plan : Option Plan
  pub fresh : PlanTexts
  pub edited : PlanTexts

-- The body of a request, each number as JavaScript's `Number` makes it. The other fields of
-- `PlanCreateRequest` and `PlanUpdateRequest` are never sent.
pub record PlanBody : Type 0 where
  pub name : Option String
  pub description : Option String
  pub max_terminals : Option Number
  pub max_users : Option Number
  pub max_slots_per_day : Option Number
  pub retention_days : Option Number
  pub api_rate_limit_per_min : Option Number
  pub is_active : Option Bool

-- The body that `handleCreate` and `handleUpdate` make of the texts.
abbrev pub body_of : PlanTexts → PlanBody
body_of t = record {
  name = some t.name;
  description = or_undefined t.description;
  max_terminals = some (number_of t.max_terminals);
  max_users = some (number_of t.max_users);
  max_slots_per_day = some (number_of t.max_slots);
  retention_days = some (number_of t.retention);
  api_rate_limit_per_min = some (number_of t.rate_limit);
  is_active = none;
}

-- `handleCreate`, and its `onSuccess`, which leaves the numbers as they were typed.
unfoldable pub create_start : PlansPage → Option PlanBody
create_start p = if is_blank p.fresh.name then none else some (body_of p.fresh)

unfoldable pub create_finish : PlansPage → PlansPage
create_finish p = record p {
  create_open = false;
  fresh = record p.fresh { name = ""; description = "" };
}

-- The texts that `openEdit` fills in for a plan.
abbrev pub texts_of : Plan → PlanTexts
texts_of plan = record {
  name = plan.name;
  description = or_else plan.description "";
  max_terminals = decimal plan.max_terminals;
  max_users = decimal plan.max_users;
  max_slots = decimal plan.max_slots_per_day;
  retention = decimal plan.retention_days;
  rate_limit = decimal plan.api_rate_limit_per_min;
}

unfoldable pub open_edit : Plan → PlansPage → PlansPage
open_edit plan p = record p { editing_plan = some plan; edited = texts_of plan; edit_open = true }

-- `handleUpdate`
unfoldable pub update_start : PlansPage → Option (String × PlanBody)
update_start p = elim p.editing_plan as (λ x. Option (String × PlanBody)) [
  | none ↦ none
  | some plan ↦ some (plan.id, body_of p.edited)
]

-- `toggleActive`
unfoldable pub toggle_active : Plan → String × PlanBody
toggle_active plan = (
  plan.id,
  record {
    name = none;
    description = none;
    max_terminals = none;
    max_users = none;
    max_slots_per_day = none;
    retention_days = none;
    api_rate_limit_per_min = none;
    is_active = some (not plan.is_active);
  },
)

-- The clicks, and the fields of the forms.
pub data Click : Type 0 where
  open_create close_create create close_edit update : Click
  edit toggle : Plan → Click

pub data Field : Type 0 where
  name description max_terminals max_users max_slots retention rate_limit : Field
  edit_name edit_description edit_max_terminals edit_max_users : Field
  edit_max_slots edit_retention edit_rate_limit : Field

-- The card of a plan.
unfoldable pub plan_card : Locale → Plan → List (Part Click Field)
unfolding decimal
plan_card l plan =
    heading plan.name
    ∷ status_part (if plan.is_active then "active" else "revoked")
    ∷ text (or_else plan.description "No description")
    ∷ text ("Terminals: " +++ decimal plan.max_terminals)
    ∷ text ("Users: " +++ decimal plan.max_users)
    ∷ text ("Slots/day: " +++ format_number l plan.max_slots_per_day)
    ∷ text ("Retention: " +++ (decimal plan.retention_days +++ "d"))
    ∷ (chips plan.allowed_ai_providers
        ++ menu (
            record { label = "Edit"; danger = false; action = edit plan }
            ∷ record {
              label = if plan.is_active then "Deactivate" else "Activate";
              danger = false;
              action = toggle plan;
            }
            ∷ [])
          ∷ [])

-- The two dialogs; `busy` is whether the request is on its way.
unfoldable pub create_dialog : Bool → PlansPage → List (Part Click Field)
unfolding modal
create_dialog busy p = modal p.create_open close_create (
    heading "Create Plan"
    ∷ input "Name" name p.fresh.name false
    ∷ input "Description" description p.fresh.description false
    ∷ input "Max Terminals" max_terminals p.fresh.max_terminals false
    ∷ input "Max Users" max_users p.fresh.max_users false
    ∷ input "Slots / Day" max_slots p.fresh.max_slots false
    ∷ input "Retention (days)" retention p.fresh.retention false
    ∷ input "Rate Limit / min" rate_limit p.fresh.rate_limit false
    ∷ button (if busy then "Creating..." else "Create") busy create
    ∷ button "Cancel" false close_create
    ∷ [])

unfoldable pub edit_dialog : Bool → PlansPage → List (Part Click Field)
unfolding modal
edit_dialog busy p = modal p.edit_open close_edit (
    heading "Edit Plan"
    ∷ input "Name" edit_name p.edited.name false
    ∷ input "Description" edit_description p.edited.description false
    ∷ input "Max Terminals" edit_max_terminals p.edited.max_terminals false
    ∷ input "Max Users" edit_max_users p.edited.max_users false
    ∷ input "Slots / Day" edit_max_slots p.edited.max_slots false
    ∷ input "Retention (days)" edit_retention p.edited.retention false
    ∷ input "Rate Limit / min" edit_rate_limit p.edited.rate_limit false
    ∷ button (if busy then "Saving..." else "Save") busy update
    ∷ button "Cancel" false close_edit
    ∷ [])

-- The page, from its query and its two mutations.
unfoldable pub plans_view :
    Locale → Bool → Option (List Plan) → Bool → Bool → PlansPage → List (Part Click Field)
unfolding create_dialog edit_dialog listing plan_card
plans_view l is_loading plans creating updating p =
    heading "Plans"
    ∷ button "Create Plan" false open_create
    ∷ (create_dialog creating p
        ++ (edit_dialog updating p
            ++ listing is_loading plans 3 (empty_state "No plans" "Create your first plan.") []
                (λ (plan : Plan). plan.id) (plan_card l)))
