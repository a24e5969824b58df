-- ===== src/Pages/SlotDetail/Evaluation.antt =====
-- What portal/src/app/(app)/slots/[id]/page.tsx shows of the evaluation of a slot.
use mutell_demo.Prelude.{
  ℕ, String, Option, none, some, List, [], ◌∷◌, ◌++◌, is_truthy, is_empty, length, ltb, ◌==◌,
  str_eq, if◌then◌else◌, decimal, ◌+++◌,
}
use mutell_demo.Types.Slot.{Evaluation, SpeakerSegment}
use mutell_demo.Screen.Colors.{Tone, blue, green, gray}
use mutell_demo.Screen.Scores.{Scores, score_bar}
use mutell_demo.Screen.{Part, heading, text, tinted, bar, chips}

-- The colour of a speaker.
unfoldable pub speaker_tone : String → Tone
speaker_tone speaker =
    if str_eq speaker "employee" then blue else if str_eq speaker "customer" then green else gray

module _ {A F : Type 0} where
  -- A list under its title, where there is one and it is not empty.
  unfoldable pub section : String → Option (List String) → List (Part A F)
  section title none = []
  section title (some items) = if is_empty items then [] else heading title ∷ chips items

  -- The same for the items that were not available, with their number in the title.
  unfoldable pub unavailable : Option (List String) → List (Part A F)
  unfolding decimal
  unavailable none = []
  unavailable (some items) =
      if is_empty items
      then []
      else heading ("Unavailable Items (" +++ (decimal (length items) +++ ")")) ∷ chips items

  -- `unit` is what is counted; there is a plural of it unless the count is 1.
  unfoldable pub incidents : String → String → Option ℕ → Option (List String) → List (Part A F)
  unfolding decimal
  incidents title unit none instances = []
  incidents title unit (some count) instances =
      if ltb 0 count
      then heading (
          title
          +++ (" ("
              +++ (decimal count
                  +++ (" " +++ (unit +++ ((if count == 1 then "" else "s") +++ ")"))))))
        ∷ elim instances as (λ x. List (Part A F)) [ none ↦ [] | some items ↦ chips items ]
      else []

  unfoldable pub segment_parts : List SpeakerSegment → List (Part A F)
  unfolding speaker_tone
  segment_parts [] = []
  segment_parts (seg ∷ segs) =
      tinted (speaker_tone seg.speaker) seg.speaker ∷ text seg.text ∷ segment_parts segs

  unfoldable pub segments : Option (List SpeakerSegment) → List (Part A F)
  unfolding segment_parts
  segments none = []
  segments (some segs) =
      if is_empty segs then [] else heading "Speaker Segments" ∷ segment_parts segs

  unfoldable pub summary_parts : Option String → List (Part A F)
  summary_parts none = []
  summary_parts (some summary) =
      if is_truthy summary then heading "Summary" ∷ text summary ∷ [] else []

  module _ {W : Type 0} ⦃s : Scores W⦄ where
    abbrev bar_part : String → Option W → Part A F
    bar_part label score = bar label (score_bar score).0 (score_bar score).1

    -- The eight bars, below the provider and its model.
    unfoldable pub score_parts : Evaluation W → List (Part A F)
    unfolding score_bar
    score_parts ev =
        heading "Score Breakdown"
        ∷ ((if is_truthy ev.ai_provider
              then text (
                  "via "
                  +++ (ev.ai_provider
                      +++ (" "
                          +++ (if is_truthy ev.ai_model
                              then "(" +++ (ev.ai_model +++ ")")
                              else ""))))
                ∷ []
              else [])
            ++ bar_part "Overall" ev.score_overall
              ∷ bar_part "Sentiment" ev.score_sentiment
              ∷ bar_part "Politeness" ev.score_politeness
              ∷ bar_part "Compliance" ev.score_compliance
              ∷ bar_part "Resolution" ev.score_resolution
              ∷ bar_part "Upselling" ev.score_upselling
              ∷ bar_part "Response Time" ev.score_response_time
              ∷ bar_part "Honesty" ev.score_honesty
              ∷ [])

    -- The details, each where there is something to show.
    unfoldable pub detail_parts : Evaluation W → List (Part A F)
    unfolding section unavailable incidents segments summary_parts
    detail_parts ev =
        heading "Evaluation Details"
        ∷ (summary_parts ev.summary
            ++ (section "Strengths" ev.strengths
                ++ (section "Weaknesses" ev.weaknesses
                    ++ (section "Recommendations" ev.recommendations
                        ++ (section "Flags" ev.flags
                            ++ (unavailable ev.unavailable_items
                                ++ (incidents "Swearing" "occurrence" ev.swearing_count
                                      ev.swearing_instances
                                    ++ (incidents "Off-Topic Talk" "segment" ev.off_topic_count
                                          ev.off_topic_segments
                                        ++ segments ev.speaker_segments))))))))
