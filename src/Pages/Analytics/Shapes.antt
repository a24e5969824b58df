-- ===== src/Pages/Analytics/Shapes.antt =====
-- The charts of portal/src/app/(app)/analytics/page.tsx and portal/src/app/(app)/dashboard/page.tsx.
use mutell_demo.Prelude.{
  ℕ, suc, ◌≤◌, ◌≡◌, refl, ap, String, some, List, [], ◌∷◌, map, length, All, arith,
}
use mutell_demo.Types.Statistics.{Aggregation, TrendPoint, TagStats, ScoreBreakdown}
use mutell_demo.Format.{Locale}
use mutell_demo.Screen.Charts.{IsAligned}
use mutell_demo.Screen.Scores.{Scores}
use mutell_demo.Pages.Dashboard.{score_chart}
use mutell_demo.Pages.Analytics.{
  StatusLine, trend_chart, radar_chart, tag_chart, language_chart, status_lines,
}

length-map :
    {A B C : Type 0} (f : A → B) (g : A → C) (xs : List A) → length (map f xs) ≡ length (map g xs)
length-map f g [] = refl
length-map f g (x ∷ xs) = ap suc (length-map f g xs)

lines_within :
    (total : ℕ) (es : List (String × ℕ))
    → All (λ (l : StatusLine). (l.filled ≤ l.of) × (l.filled ≤ l.count)) (status_lines total es)
unfolding status_lines
lines_within total [] = tt
lines_within total ((status, count) ∷ es) = ((ground arith, ground arith), lines_within total es)

module _ {W : Type 0} ⦃s : Scores W⦄ where
  -- Every chart of the two pages has one value for each category in each of its series, whatever
  -- scores are missing; and no bar of the distribution by status is filled beyond its end.
  pub charts-IsAligned :
      (l : Locale) (aggregations : List (Aggregation W)) (points : List (TrendPoint W))
      (scores : ScoreBreakdown W) (tags : List TagStats) (upper : String → String)
      (languages statuses : List (String × ℕ)) (total : ℕ)
      → IsAligned (score_chart l aggregations)
        × IsAligned (trend_chart points)
        × IsAligned (radar_chart (some scores))
        × IsAligned (tag_chart tags)
        × IsAligned (language_chart upper languages)
        × All
            (λ (x : StatusLine). (x.filled ≤ x.of) × (x.filled ≤ x.count))
            (status_lines total statuses)
  unfolding score_chart trend_chart radar_chart tag_chart language_chart
  charts-IsAligned l aggregations points scores tags upper languages statuses total = (
    (length-map _ _ aggregations, tt),
    (
      length-map _ _ points,
      (length-map _ _ points, (length-map _ _ points, (length-map _ _ points, tt))),
    ),
    (refl, tt),
    (length-map _ _ tags, tt),
    (length-map _ _ languages, tt),
    lines_within total statuses,
  )
