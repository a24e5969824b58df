-- ===== src/Pages/Dashboard.antt =====
-- The dashboard of a tenant, portal/src/app/(app)/dashboard/page.tsx.
mod Tests
use mutell_demo.Prelude.{
  ℕ, String, Bool, true, false, Option, none, some, List, [], ◌∷◌, ◌++◌, map, length, is_empty,
  is_truthy, coalesce, if◌then◌else◌, ◌==◌, decimal, ◌+++◌,
}
use Prim.Native.Char.{code}
use mutell_demo.Session.{User}
use mutell_demo.Types.{slot_status_text}
use mutell_demo.Types.Slot.{Slot}
use mutell_demo.Types.Statistics.{DashboardStats, Aggregation}
use mutell_demo.Format.{Locale, format_number, format_relative_time, slice}
use mutell_demo.Screen.Charts.{Chart}
use mutell_demo.Screen.Colors.{ScoreText}
use mutell_demo.Screen.Scores.{Scores, format_percent, score_color, score_bar}
use mutell_demo.Screen.{
  Part, heading, text, stat, score_stat, bar, badge, chart, button, bones, listing, status_part,
  shown_if,
}

pub data DateRange : Type 0 where
  one_day seven_days thirty_days : DateRange

-- `dateRangeDays`
unfoldable pub date_range_days : DateRange → ℕ
date_range_days one_day = 1
date_range_days seven_days = 7
date_range_days thirty_days = 30

-- The keys of the three tabs.
abbrev pub range_key : DateRange → String
range_key one_day = "1d"
range_key seven_days = "7d"
range_key thirty_days = "30d"

pub data Click : Type 0 where
  set_range : DateRange → Click
  all_slots : Click
  open_slot : String → Click

-- `s.split(" ")[0]`
unfoldable pub first_word : String → String
first_word String.[] = String.[]
first_word (String.◌∷◌ c s) =
    let rest = first_word s in if code c == 32 then String.[] else String.◌∷◌ c rest

-- The greeting.
unfoldable pub welcome : Option User → String
unfolding first_word
welcome none = "Welcome back"
welcome (some user) =
    if is_truthy user.full_name
    then "Welcome back, " +++ first_word user.full_name
    else "Welcome back"

abbrev last_of {ℓ} : {A : Type ℓ} → A → List A → A
last_of x [] = x
last_of x (y ∷ ys) = last_of y ys

-- `stats?.field ?? 0`
abbrev stat_of : {W : Type 0} → (DashboardStats W → ℕ) → Option (DashboardStats W) → ℕ
stat_of f none = 0
stat_of f (some stats) = f stats

module _ {W : Type 0} ⦃s : Scores W⦄ where
  -- `chartOptions` and `chartSeries`
  unfoldable pub score_chart : Locale → List (Aggregation W) → Chart W
  score_chart l items = record {
    categories = map (λ (a : Aggregation W). l.month_day a.period_start) items;
    series =
        record {
          name = "Avg Score";
          values = map (λ (a : Aggregation W). coalesce a.avg_overall (s.of 0)) items;
        }
        ∷ [];
  }

  -- `.filter((m) => m.val !== null)`
  unfoldable pub present : List (String × Option W) → List (String × W)
  present [] = []
  present ((key, none) ∷ ms) = present ms
  present ((key, some val) ∷ ms) = (key, val) ∷ present ms

  -- `metricEntries`
  unfoldable pub metric_entries : List (Aggregation W) → List (String × W)
  unfolding present
  metric_entries [] = []
  metric_entries (a ∷ as') =
      let latest = last_of a as' in
      present (
        ("Sentiment", latest.avg_sentiment)
        ∷ ("Politeness", latest.avg_politeness)
        ∷ ("Compliance", latest.avg_compliance)
        ∷ ("Resolution", latest.avg_resolution)
        ∷ ("Upselling", latest.avg_upselling)
        ∷ ("Response Time", latest.avg_response_time)
        ∷ ("Honesty", latest.avg_honesty)
        ∷ [])

  -- `stats?.avg !== null ? formatPercent(stats?.avg ?? 0) : "—"`: while there are no statistics the
  -- field is undefined, which is not null.
  unfoldable pub average_text : (DashboardStats W → Option W) → Option (DashboardStats W) → String
  unfolding format_percent
  average_text f none = format_percent (s.of 0)
  average_text f (some stats) = elim (f stats) as (λ x. String) [
    | none ↦ "—"
    | some x ↦ format_percent x
  ]

  -- `scoreColor(stats?.avg_score_month ?? 0)`
  unfoldable pub month_color : Option (DashboardStats W) → ScoreText
  unfolding score_color
  month_color none = score_color (s.of 0)
  month_color (some stats) = score_color (coalesce stats.avg_score_month (s.of 0))

  -- The four cards.
  unfoldable pub stat_cards :
      Locale → Bool → Option (DashboardStats W) → List (Part Click (Unit {0}))
  unfolding average_text
  stat_cards l is_loading stats =
      stat "Slots Today"
        (if is_loading then "..." else format_number l (stat_of (λ x. x.slots_today) stats))
      ∷ stat "Evaluated Today"
          (if is_loading then "..." else format_number l (stat_of (λ x. x.evaluated_today) stats))
      ∷ stat "Pending Evaluations" (
          if is_loading
          then "..."
          else format_number l (stat_of (λ x. x.pending_evaluations) stats))
      ∷ stat "Avg Score (Week)"
          (if is_loading then "..." else average_text (λ x. x.avg_score_week) stats)
      ∷ []

  -- "Quick Stats"; the last one has a colour.
  unfoldable pub quick_stats : Locale → Option (DashboardStats W) → List (Part Click (Unit {0}))
  unfolding average_text month_color decimal
  quick_stats l stats =
      heading "Quick Stats"
      ∷ stat "Active Terminals" (decimal (stat_of (λ x. x.active_terminals) stats))
      ∷ stat "Failed Today" (decimal (stat_of (λ x. x.failed_today) stats))
      ∷ stat "Slots This Week" (format_number l (stat_of (λ x. x.slots_week) stats))
      ∷ score_stat "Avg Score (Month)" (month_color stats)
          (average_text (λ x. x.avg_score_month) stats)
      ∷ []

  unfoldable pub metric_bars : List (String × W) → List (Part Click (Unit {0}))
  unfolding score_bar
  metric_bars [] = []
  metric_bars ((key, val) ∷ ms) =
      bar key (score_bar (some val)).0 (score_bar (some val)).1 ∷ metric_bars ms

  -- "Metrics Breakdown", where there is anything to show.
  unfoldable pub metrics : List (String × W) → List (Part Click (Unit {0}))
  unfolding metric_bars
  metrics entries =
      if is_empty entries then [] else heading "Metrics Breakdown" ∷ metric_bars entries

  -- A line of the recent slots; a click on it opens the slot.
  unfoldable pub recent_row : Locale → Slot W → List (Part Click (Unit {0}))
  unfolding slice format_relative_time
  recent_row l slot =
      button (slice slot.id 8) false (open_slot slot.id)
      ∷ text (format_relative_time l slot.created_at)
      ∷ status_part (slot_status_text slot.status)
      ∷ []

  unfoldable pub dashboard_view :
      Locale
      → Option User
      → Bool
      → Option (DashboardStats W)
      → Bool
      → Option (List (Slot W))
      → Option (List (Aggregation W))
      → List (Part Click (Unit {0}))
  unfolding welcome stat_cards quick_stats metric_entries metrics recent_row listing
  dashboard_view l user stats_loading stats slots_loading slots aggregations =
      let items = coalesce aggregations [] in
      heading "Dashboard"
      ∷ heading (welcome user)
      ∷ text "Here's what's happening with your POS interactions today."
      ∷ (stat_cards l stats_loading stats
          ++ heading "Score Trend"
            ∷ button "1D" false (set_range one_day)
            ∷ button "7D" false (set_range seven_days)
            ∷ button "30D" false (set_range thirty_days)
            ∷ (if is_empty items then text "No data available for this period" else chart "bar")
            ∷ (quick_stats l stats
                ++ (metrics (metric_entries items)
                    ++ heading "Recent Slots"
                      ∷ button "View All" false all_slots
                      ∷ listing slots_loading slots 3 (text "No slots yet" ∷ []) []
                          (λ (slot : Slot W). slot.id) (recent_row l))))
