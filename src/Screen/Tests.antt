-- ===== src/Screen/Tests.antt =====
-- The colours of two scores.
use mutell_demo.Prelude.{ℕ, ◌≤◌, refl}
use mutell_demo.Screen.Scores.{whole_scores, ℕ-IsOrdered, bar_color, score_color}
use mutell_demo.Screen.Ranks.{bar_rank, text_rank, bar_alarm, text_alarm, colors_keep_order}

colors_keep_order_example :
    (bar_rank (bar_color {W = ℕ} 62) ≤ bar_rank (bar_color {W = ℕ} 84))
    × (text_rank (score_color {W = ℕ} 62) ≤ text_rank (score_color {W = ℕ} 84))
    × (bar_alarm (bar_color {W = ℕ} 84) ≤ text_alarm (score_color {W = ℕ} 84))
colors_keep_order_example = colors_keep_order ℕ-IsOrdered 84 62 refl
