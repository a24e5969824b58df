-- ===== src/Pages/Admin/AuditLog.antt =====
-- The log of all actions, portal/src/app/(app)/admin/audit-log/page.tsx.
mod Tests
use mutell_demo.Prelude.{
  ℕ, String, Bool, false, ◌||◌, Option, none, some, List, [], ◌∷◌, ◌++◌, is_truthy, or_else,
  or_undefined, if◌then◌else◌, decimal, ◌==◌, ◌+++◌,
}
use mutell_demo.Types.Query.{AuditLogParams, AuditEntry, AuditLogResponse}
use mutell_demo.Format.{Locale, truncate}
use mutell_demo.Screen.{
  Part, heading, text, button, input, counted, shown_if, empty_state, listing, pager_part,
}

-- The state of `AuditLogPage`.
pub record AuditLogPage : Type 0 where
  pub page : ℕ
  pub action_filter : String
  pub date_from : String
  pub date_to : String

abbrev pub opened : AuditLogPage
opened = record { page = 1; action_filter = ""; date_from = ""; date_to = "" }

abbrev pub per_page : ℕ
per_page = 20

-- The parameters of `useAdminAuditLog`.
unfoldable pub query : AuditLogPage → AuditLogParams
query p = record {
  page = some p.page;
  per_page = some per_page;
  action = or_undefined p.action_filter;
  date_from = or_undefined p.date_from;
  date_to = or_undefined p.date_to;
}

-- What a user does with the filters: typing an action, picking a date or clearing its picker,
-- `clearFilters`, and the pagination.
pub data Step : Type 0 where
  type_action : String → Step
  pick_from pick_to : Option String → Step
  clear_filters : Step
  set_page : ℕ → Step

unfoldable pub step : Step → AuditLogPage → AuditLogPage
step (type_action typed) p = record p { action_filter = typed; page = 1 }
step (pick_from none) p = record p { page = 1 }
step (pick_from (some iso)) p = record p { date_from = iso; page = 1 }
step (pick_to none) p = record p { page = 1 }
step (pick_to (some iso)) p = record p { date_to = iso; page = 1 }
step clear_filters p = record { page = 1; action_filter = ""; date_from = ""; date_to = "" }
step (set_page page) p = record p { page = page }

-- `hasFilters`
unfoldable pub has_filters : AuditLogPage → Bool
has_filters p = is_truthy p.action_filter || is_truthy p.date_from || is_truthy p.date_to

pub data Field : Type 0 where
  action from to : Field

-- The line of an entry.
unfoldable pub entry_row : Locale → AuditEntry → List (Part Step Field)
unfolding decimal truncate
entry_row l entry =
    text entry.action
    ∷ text (elim entry.resource_type as (λ x. String) [
      | none ↦ "—"
      | some kind ↦
          if is_truthy kind
          then kind +++ ("/" +++ truncate (or_else entry.resource_id "") 8)
          else "—"
    ])
    ∷ text (truncate (or_else entry.user_id "") 8)
    ∷ text (or_else entry.ip_address "—")
    ∷ text (elim entry.status_code as (λ x. String) [
      | none ↦ "—"
      | some code ↦ if code == 0 then "—" else decimal code
    ])
    ∷ text (l.local_string entry.created_at)
    ∷ []

-- The page, from its query. The date pickers keep their own text, so none is shown here.
unfoldable pub audit_view :
    Locale → Bool → Option AuditLogResponse → AuditLogPage → List (Part Step Field)
unfolding has_filters listing entry_row counted
audit_view l is_loading response p =
    let items = elim response as (λ x. Option (List AuditEntry)) [
      | none ↦ none
      | some r ↦ some r.items
    ] in
    let total = elim response as (λ x. Option ℕ) [ none ↦ none | some r ↦ some r.total ] in
    heading "Audit Log"
    ∷ input "" action p.action_filter false
    ∷ (shown_if (has_filters p) (button "Clear filters" false clear_filters ∷ [])
        ++ heading (counted "Activity Log" total)
          ∷ (listing is_loading items 3
                (empty_state "No audit entries" "No log entries match your filter.")
                ("Action" ∷ "Resource" ∷ "User ID" ∷ "IP" ∷ "Status" ∷ "Time" ∷ [])
                (λ (entry : AuditEntry). entry.id) (entry_row l)
              ++ pager_part per_page total p.page))
