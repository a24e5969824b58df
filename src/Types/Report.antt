-- ===== src/Types/Report.antt =====
-- portal/src/types/report.ts: reports.
-- A field that may be missing or null is an `Option`.
use mutell_demo.Prelude.{ℕ, String, Bool, Option, List, ◌++◌}
use mutell_demo.Http.{Object, str, bool, strs, always, maybe}
use mutell_demo.Types.{ReportStatus}

pub record Report : Type 0 where
  pub id : String
  pub tenant_id : String
  pub generated_by : String
  pub title : String
  pub period_start : String
  pub period_end : String
  pub terminal_ids : Option (List String)
  pub file_url : Option String
  pub file_size_bytes : Option ℕ
  pub status : ReportStatus
  pub created_at : String

pub record ReportCreateRequest : Type 0 where
  pub title : String
  pub period_start : String
  pub period_end : String
  pub terminal_ids : Option (List String)
  pub include_transcripts : Option Bool
  pub include_notes : Option Bool
  pub accent_color : Option String

-- The object that is sent.
unfoldable pub report_create_request_object : ReportCreateRequest → Object
report_create_request_object r =
    always "title" str r.title
    ++ (always "period_start" str r.period_start
        ++ (always "period_end" str r.period_end
            ++ (maybe "terminal_ids" strs r.terminal_ids
                ++ (maybe "include_transcripts" bool r.include_transcripts
                    ++ (maybe "include_notes" bool r.include_notes
                        ++ (maybe "accent_color" str r.accent_color))))))

pub record ReportDownloadResponse : Type 0 where
  pub download_url : String
  pub expires_in : ℕ
