-- ===== src/Pages/Analytics.antt =====
-- The statistics of a tenant, portal/src/app/(app)/analytics/page.tsx.
pub mod Shapes
use mutell_demo.Prelude.{
  ℕ, zero, ◌-◌, String, Bool, true, false, Option, none, some, List, [], ◌∷◌, ◌++◌, map, length,
  is_empty, ltb, ◌==◌, coalesce, if◌then◌else◌, decimal, Number, whole, other, number_of, ◌+++◌,
}
use Prim.Native.Char.{code}
use mutell_demo.Types.Statistics.{AnalyticsSummary, ScoreBreakdown, TrendPoint, TagStats}
use mutell_demo.Paging.{min}
use mutell_demo.Format.{Locale, format_number}
use mutell_demo.Screen.Badges.{first_spaced, tag_badge}
use mutell_demo.Screen.Charts.{Chart, Series}
use mutell_demo.Screen.Scores.{Scores, format_percent}
use mutell_demo.Screen.{
  Part, heading, text, stat, tag, row, button, chart, bones, chips, empty_state,
}

-- The click on a tab, with its key.
pub data Click : Type 0 where
  set_days : String → Click

-- `ChartTab`'s `onChange`: `setDays(Number(k))`.
unfoldable pub days_of : Click → Number
days_of (set_days key) = number_of key

abbrev pub tabs : List (String × String)
tabs = ("7", "7 Days") ∷ ("14", "14 Days") ∷ ("30", "30 Days") ∷ ("90", "90 Days") ∷ []

-- `s.slice(n)`, in UTF-16 units.
unfoldable pub slice_from : String → ℕ → String
slice_from String.[] n = String.[]
slice_from (String.◌∷◌ c s) n =
    let rest = slice_from s (n - (if ltb (code c) 0x10000 then 1 else 2)) in
    if n == 0 then String.◌∷◌ c s else rest

-- `tagBarOptions` and `tagBarSeries`
unfoldable pub tag_chart : List TagStats → Chart ℕ
tag_chart tags = record {
  categories = map (λ (t : TagStats). t.label) tags;
  series = record { name = "Incidents"; values = map (λ (t : TagStats). t.count) tags } ∷ [];
}

-- `donutOptions` and its values; `upper` is `toUpperCase`.
unfoldable pub language_chart : (String → String) → List (String × ℕ) → Chart ℕ
language_chart upper languages = record {
  categories = map (λ (e : String × ℕ). upper e.0) languages;
  series = record { name = ""; values = map (λ (e : String × ℕ). e.1) languages } ∷ [];
}

-- A line of the status distribution: its bar is filled to `filled` parts of `of`.
pub record StatusLine : Type 0 where
  pub label : String
  pub filled : ℕ
  pub of : ℕ
  pub count : ℕ

-- `Math.min(100, (count / d.total_slots) * 100)`
unfoldable pub status_lines : ℕ → List (String × ℕ) → List StatusLine
unfolding first_spaced
status_lines total [] = []
status_lines total ((status, count) ∷ es) =
    record { label = first_spaced status; filled = min count total; of = total; count = count }
    ∷ status_lines total es

unfoldable pub line_parts : List StatusLine → List (Part Click (Unit {0}))
unfolding decimal
line_parts [] = []
line_parts (l ∷ ls) = text l.label ∷ text (decimal l.count) ∷ line_parts ls

-- The three cards of incidents.
unfoldable pub incident_cards : {W : Type 0} → AnalyticsSummary W → List (Part Click (Unit {0}))
unfolding decimal
incident_cards d =
    let across = "across " +++ (decimal d.evaluated_slots +++ " evaluations") in
    stat "Swearing Incidents" (decimal d.total_swearing_incidents)
    ∷ text across
    ∷ stat "Off-Topic Segments" (decimal d.total_off_topic_incidents)
    ∷ text across
    ∷ stat "Unavailable Items" (decimal d.total_unavailable_items)
    ∷ text (decimal (length d.unavailable_item_frequency) +++ " unique items")
    ∷ []

unfoldable pub frequency_rows : List (String × ℕ) → List (Part Click (Unit {0}))
unfolding decimal
frequency_rows [] = []
frequency_rows ((item, count) ∷ es) =
    row item ∷ text item ∷ text (decimal count) ∷ frequency_rows es

unfoldable pub frequency_table : List (String × ℕ) → List (Part Click (Unit {0}))
unfolding frequency_rows
frequency_table items =
    if is_empty items
    then []
    else heading "Unavailable Items" ∷ (chips ("Item" ∷ "Occurrences" ∷ []) ++ frequency_rows items)

unfoldable pub tag_rows : List TagStats → List (Part Click (Unit {0}))
unfolding tag_badge decimal
tag_rows [] = []
tag_rows (t ∷ ts) =
    row t.tag
    ∷ tag (tag_badge t.tag).0 (tag_badge t.tag).1
    ∷ text ("(" +++ (decimal t.count +++ ")"))
    ∷ tag_rows ts

unfoldable pub tags_overview : List TagStats → List (Part Click (Unit {0}))
unfolding tag_rows
tags_overview tags = if is_empty tags then [] else heading "Tags Overview" ∷ tag_rows tags

module _ {W : Type 0} ⦃s : Scores W⦄ where
  -- `scoreTrendOptions` and `scoreTrendSeries`
  abbrev trend_values : (TrendPoint W → Option W) → List (TrendPoint W) → List W
  trend_values f = map (λ (t : TrendPoint W). coalesce (f t) (s.of 0))

  unfoldable pub trend_chart : List (TrendPoint W) → Chart W
  unfolding slice_from
  trend_chart points = record {
    categories = map (λ (t : TrendPoint W). slice_from t.period 5) points;
    series =
        record { name = "Overall"; values = trend_values (λ t. t.overall) points }
        ∷ record { name = "Sentiment"; values = trend_values (λ t. t.sentiment) points }
        ∷ record { name = "Politeness"; values = trend_values (λ t. t.politeness) points }
        ∷ record { name = "Compliance"; values = trend_values (λ t. t.compliance) points }
        ∷ [];
  }

  -- `radarOptions` and `radarSeries`
  unfoldable pub radar_chart : Option (ScoreBreakdown W) → Chart W
  radar_chart scores = record {
    categories =
        "Overall" ∷ "Sentiment" ∷ "Politeness" ∷ "Compliance" ∷ "Resolution" ∷ "Upselling"
        ∷ "Response" ∷ "Honesty" ∷ [];
    series =
        record {
          name = "Avg Score";
          values = elim scores as (λ x. List W) [
            | none ↦ []
            | some b ↦
                coalesce b.overall (s.of 0)
                ∷ coalesce b.sentiment (s.of 0)
                ∷ coalesce b.politeness (s.of 0)
                ∷ coalesce b.compliance (s.of 0)
                ∷ coalesce b.resolution (s.of 0)
                ∷ coalesce b.upselling (s.of 0)
                ∷ coalesce b.response_time (s.of 0)
                ∷ coalesce b.honesty (s.of 0)
                ∷ []
          ];
        }
        ∷ [];
  }

  -- The four cards.
  unfoldable pub summary_cards : Locale → AnalyticsSummary W → List (Part Click (Unit {0}))
  unfolding format_percent
  summary_cards l d =
      stat "Total Slots" (format_number l d.total_slots)
      ∷ stat "Avg Score"
          (elim d.avg_scores.overall as (λ x. String) [ none ↦ "—" | some x ↦ format_percent x ])
      ∷ stat "Evaluated" (format_number l d.evaluated_slots)
      ∷ stat "Failed" (format_number l d.failed_slots)
      ∷ []

  -- The body of the page where there are slots.
  unfoldable pub summary_parts : Locale → AnalyticsSummary W → List (Part Click (Unit {0}))
  unfolding summary_cards status_lines line_parts incident_cards frequency_table tags_overview
  summary_parts l d =
      summary_cards l d
      ++ heading "Score Trend"
        ∷ ((if is_empty d.score_trend
              then empty_state "No trend data" "Aggregated data not yet available."
              else chart "line" ∷ [])
            ++ heading "Score Breakdown"
              ∷ chart "radar"
              ∷ heading "Tag Distribution"
              ∷ ((if is_empty d.tag_stats
                    then empty_state "No tags" "No behavioral tags detected in this period."
                    else chart "bar" ∷ [])
                  ++ heading "Language Distribution"
                    ∷ (if is_empty d.language_distribution
                        then heading "No data"
                        else chart "donut")
                    ∷ heading "Status Distribution"
                    ∷ (line_parts (status_lines d.total_slots d.status_distribution)
                        ++ (incident_cards d
                            ++ (frequency_table d.unavailable_item_frequency
                                ++ tags_overview d.tag_stats)))))

  unfoldable pub analytics_view :
      Locale → Bool → Option (AnalyticsSummary W) → List (Part Click (Unit {0}))
  unfolding summary_parts
  analytics_view l is_loading summary =
      heading "Analytics"
      ∷ (map (λ (t : String × String). button t.1 false (set_days t.0)) tabs
          ++ (if is_loading then bones 4 else elim summary as (λ x. List (Part Click (Unit {0}))) [
            | none ↦ empty_state "No data" "No evaluation data available for the selected period."
            | some d ↦
                if d.total_slots == 0
                then empty_state "No data" "No evaluation data available for the selected period."
                else summary_parts l d
          ]))
