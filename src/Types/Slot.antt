-- ===== src/Types/Slot.antt =====
-- portal/src/types/slot.ts: what the slot endpoints take and what they return. `W` are
-- the scores, numbers with fractions.
-- A field that may be missing or null is an `Option`.
use mutell_demo.Prelude.{ℕ, String, Bool, Option, List, ◌++◌}
use mutell_demo.Http.{Object, str, num, strs, always, maybe}
use mutell_demo.Types.{SlotStatus, slot_status_text}

-- A value of `metadata` is the text that a template literal makes of it.
pub record Slot (W : Type 0) : Type 0 where
  pub id : String
  pub terminal_id : String
  pub tenant_id : String
  pub started_at : String
  pub ended_at : String
  pub duration_secs : ℕ
  pub language : Option String
  pub word_count : Option ℕ
  pub status : SlotStatus
  pub tags : List String
  pub metadata : Option (List (String × String))
  pub created_at : String
  pub score_overall : Option W

pub record SpeakerSegment : Type 0 where
  pub speaker : String
  pub text : String

pub record Evaluation (W : Type 0) : Type 0 where
  pub id : String
  pub slot_id : String
  pub tenant_id : String
  pub ai_provider : String
  pub ai_model : String
  pub prompt_version : String
  pub score_overall : Option W
  pub score_sentiment : Option W
  pub score_politeness : Option W
  pub score_compliance : Option W
  pub score_resolution : Option W
  pub score_upselling : Option W
  pub score_response_time : Option W
  pub score_honesty : Option W
  pub sentiment_label : Option String
  pub language_detected : Option String
  pub summary : Option String
  pub strengths : Option (List String)
  pub weaknesses : Option (List String)
  pub recommendations : Option (List String)
  pub unclear_items : Option (List String)
  pub flags : Option (List String)
  pub unavailable_items : Option (List String)
  pub swearing_count : Option ℕ
  pub swearing_instances : Option (List String)
  pub off_topic_count : Option ℕ
  pub off_topic_segments : Option (List String)
  pub speaker_segments : Option (List SpeakerSegment)
  pub tokens_used : Option ℕ
  pub evaluation_duration_ms : Option ℕ
  pub is_unclear : Bool
  pub created_at : String

-- `SlotDetail extends Slot`
pub record SlotDetail (W : Type 0) : Type 0 where
  pub slot : Slot W
  pub raw_text : String
  pub evaluation : Option (Evaluation W)

pub record SlotListParams : Type 0 where
  pub page : Option ℕ
  pub per_page : Option ℕ
  pub terminal_id : Option String
  pub status : Option SlotStatus
  pub date_from : Option String
  pub date_to : Option String
  pub min_score : Option ℕ
  pub max_score : Option ℕ

-- The object that is sent.
unfoldable pub slot_list_params_object : SlotListParams → Object
slot_list_params_object r =
    maybe "page" num r.page
    ++ (maybe "per_page" num r.per_page
        ++ (maybe "terminal_id" str r.terminal_id
            ++ (maybe "status" (λ v. str (slot_status_text v)) r.status
                ++ (maybe "date_from" str r.date_from
                    ++ (maybe "date_to" str r.date_to
                        ++ (maybe "min_score" num r.min_score
                            ++ (maybe "max_score" num r.max_score)))))))

pub record BulkReEvaluateRequest : Type 0 where
  pub slot_ids : List String

-- The object that is sent.
unfoldable pub bulk_re_evaluate_request_object : BulkReEvaluateRequest → Object
bulk_re_evaluate_request_object r = always "slot_ids" strs r.slot_ids
