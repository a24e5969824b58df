-- ===== src/Pages/Dashboard/Tests.antt =====
-- The dashboard before its statistics have come.
use mutell_demo.Prelude.{ℕ, ◌≡◌, refl, none, decimal}
use mutell_demo.Screen.Colors.{error_500}
use mutell_demo.Screen.Scores.{whole_scores, format_percent, score_color}
use mutell_demo.Pages.Dashboard.{average_text, month_color}

no_statistics :
    (average_text {W = ℕ} (λ s. s.avg_score_week) none ≡ "0%")
    × (month_color {W = ℕ} none ≡ error_500)
unfolding average_text month_color format_percent score_color decimal
no_statistics = (refl, refl)
