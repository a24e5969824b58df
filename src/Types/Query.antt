-- ===== src/Types/Query.antt =====
-- portal/src/types/aggregation.ts, portal/src/types/analytics.ts, portal/src/types/audit.ts: the filters of the analytics endpoints.
-- A field that may be missing or null is an `Option`.
use mutell_demo.Prelude.{ℕ, String, Option, List, ◌++◌}
use mutell_demo.Http.{Object, str, num, maybe}
use mutell_demo.Types.{AggregationPeriod, period_text}

pub record AggregationListParams : Type 0 where
  pub period_type : Option AggregationPeriod
  pub period_start : Option String
  pub period_end : Option String
  pub terminal_id : Option String

-- The object that is sent.
unfoldable pub aggregation_list_params_object : AggregationListParams → Object
aggregation_list_params_object r =
    maybe "period_type" (λ v. str (period_text v)) r.period_type
    ++ (maybe "period_start" str r.period_start
        ++ (maybe "period_end" str r.period_end ++ (maybe "terminal_id" str r.terminal_id)))

pub record AnalyticsSummaryParams : Type 0 where
  pub date_from : Option String
  pub date_to : Option String
  pub terminal_id : Option String

-- The object that is sent.
unfoldable pub analytics_summary_params_object : AnalyticsSummaryParams → Object
analytics_summary_params_object r =
    maybe "date_from" str r.date_from
    ++ (maybe "date_to" str r.date_to ++ (maybe "terminal_id" str r.terminal_id))

pub record AuditLogParams : Type 0 where
  pub page : Option ℕ
  pub per_page : Option ℕ
  pub action : Option String
  pub date_from : Option String
  pub date_to : Option String

-- The object that is sent.
unfoldable pub audit_log_params_object : AuditLogParams → Object
audit_log_params_object r =
    maybe "page" num r.page
    ++ (maybe "per_page" num r.per_page
        ++ (maybe "action" str r.action
            ++ (maybe "date_from" str r.date_from ++ (maybe "date_to" str r.date_to))))

pub record AuditEntry : Type 0 where
  pub id : String
  pub tenant_id : Option String
  pub user_id : Option String
  pub action : String
  pub resource_type : Option String
  pub resource_id : Option String
  pub detail : Object
  pub ip_address : Option String
  pub status_code : Option ℕ
  pub created_at : String

pub record AuditLogResponse : Type 0 where
  pub items : List AuditEntry
  pub total : ℕ
  pub page : ℕ
  pub per_page : ℕ

-- `{ page?: number; per_page?: number }`, the paging of a list.
pub record PageParams : Type 0 where
  pub page : Option ℕ
  pub per_page : Option ℕ

-- The object that is sent.
unfoldable pub page_params_object : PageParams → Object
page_params_object r = maybe "page" num r.page ++ maybe "per_page" num r.per_page

-- `{ slot_id?: string; page?: number; per_page?: number }`, the filter of the notes.
pub record NoteListParams : Type 0 where
  pub slot_id : Option String
  pub page : Option ℕ
  pub per_page : Option ℕ

-- The object that is sent.
unfoldable pub note_list_params_object : NoteListParams → Object
note_list_params_object r =
    maybe "slot_id" str r.slot_id ++ (maybe "page" num r.page ++ maybe "per_page" num r.per_page)
