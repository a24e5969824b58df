-- ===== src/Screen/Ranks.antt =====
-- The colours of scores keep the order of the scores: portal/src/components/common/ScoreBar.tsx and
-- scoreColor of portal/src/app/(app)/dashboard/page.tsx.
use mutell_demo.Prelude.{ℕ, ◌≤◌, ◌≡◌, true, arith}
use mutell_demo.Screen.Colors.{
  Color, primary, success, warning, error, ScoreText, success_500, success_600, warning_500,
  error_500,
}
use mutell_demo.Screen.Scores.{Scores, IsOrdered, bar_color, score_color}

-- The order of the colours of the bars, from the worst score to the best.
abbrev pub bar_rank : Color → ℕ
bar_rank error = 0
bar_rank warning = 1
bar_rank primary = 2
bar_rank success = 3
bar_rank _ = 0

-- The order of those on the dashboard.
abbrev pub text_rank : ScoreText → ℕ
text_rank error_500 = 0
text_rank warning_500 = 1
text_rank success_600 = 2
text_rank success_500 = 3

-- What both tell: an error, a warning, or neither.
abbrev pub bar_alarm : Color → ℕ
bar_alarm error = 2
bar_alarm warning = 1
bar_alarm _ = 0

abbrev pub text_alarm : ScoreText → ℕ
text_alarm error_500 = 2
text_alarm warning_500 = 1
text_alarm _ = 0

module _ {W : Type 0} ⦃s : Scores W⦄ (o : IsOrdered W) where
  -- With a comparison that keeps its laws, a score that is at least another one stands at least as
  -- high in the colours of the bars, and in those of the dashboard. A score that has the colour of
  -- an error in the bars has it on the dashboard, and one that has the colour of a warning in the
  -- bars has that of a warning or an error on the dashboard.
  pub colors_keep_order :
      (x y : W)
      → s.ge x y ≡ true
      → (bar_rank (bar_color y) ≤ bar_rank (bar_color x))
        × (text_rank (score_color y) ≤ text_rank (score_color x))
        × (bar_alarm (bar_color x) ≤ text_alarm (score_color x))
  unfolding bar_color score_color
  colors_keep_order x y h = (
    ground (arith, kept 80, kept 60, kept 40),
    ground (arith, kept 85, kept 70, kept 55),
    ground (arith, above 85 80 (omega arith), above 70 60 (omega arith), above 55 40 (omega arith)),
  )
    where
      kept : (k : ℕ) → s.ge y (s.of k) ≡ true → s.ge x (s.of k) ≡ true
      kept k = o.ge_trans x y (s.of k) h

      above : (m n : ℕ) → n ≤ m → s.ge x (s.of m) ≡ true → s.ge x (s.of n) ≡ true
      above m n more reached = o.ge_trans x (s.of m) (s.of n) reached (o.ge-of m n more)
