-- ===== src/Pages/Ranges.antt =====
-- The moments between which the statistics are asked for, on portal/src/app/(app)/dashboard/page.tsx
-- and portal/src/app/(app)/analytics/page.tsx.
pub mod Frozen
mod Tests
use mutell_demo.Prelude.{ℕ, String, none, some, List, [], ◌∷◌, ◌==◌, if◌then◌else◌}
use mutell_demo.Types.{day}
use mutell_demo.Types.Query.{AggregationListParams, AnalyticsSummaryParams}
use mutell_demo.Pages.Dashboard.{DateRange, seven_days, date_range_days}

-- Moments are milliseconds. `subDays` of date-fns, and `toISOString`.
pub record Dates : Type 0 where
  pub sub_days : ℕ → ℕ → ℕ
  pub iso : ℕ → String

-- What `useMemo` keeps: the dependency and the value of `startDate`, and the value of `endDate`,
-- which depends on nothing.
pub record Window : Type 0 where
  pub days : ℕ
  pub start : ℕ
  pub end : ℕ

-- The first drawing of a page, at the moment `now`.
unfoldable pub opened : Dates → ℕ → ℕ → Window
opened d days now = record { days = days; start = d.sub_days now days; end = now }

unfoldable pub open_dashboard : Dates → ℕ → Window
unfolding opened date_range_days
open_dashboard d now = opened d (date_range_days seven_days) now

unfoldable pub open_analytics : Dates → ℕ → Window
unfolding opened
open_analytics d now = opened d 30 now

-- Another drawing, with the number of days that is now chosen.
unfoldable pub draw : Dates → ℕ → ℕ → Window → Window
draw d days now w = record w {
  days = days;
  start = if days == w.days then w.start else d.sub_days now days;
}

-- The choice of a range on the dashboard.
unfoldable pub choose_range : Dates → DateRange → ℕ → Window → Window
unfolding draw date_range_days
choose_range d range now w = draw d (date_range_days range) now w

-- Drawings one after another, each with its number of days and its moment.
unfoldable pub draw_all : Dates → List (ℕ × ℕ) → Window → Window
unfolding draw
draw_all d [] w = w
draw_all d (r ∷ rs) w = draw_all d rs (draw d r.0 r.1 w)

-- The query of the dashboard.
unfoldable pub dashboard_query : Dates → Window → AggregationListParams
dashboard_query d w = record {
  period_type = some day;
  period_start = some (d.iso w.start);
  period_end = some (d.iso w.end);
  terminal_id = none;
}

-- The query of the analytics page.
unfoldable pub analytics_query : Dates → Window → AnalyticsSummaryParams
analytics_query d w = record {
  date_from = some (d.iso w.start);
  date_to = some (d.iso w.end);
  terminal_id = none;
}
