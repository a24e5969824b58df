-- ===== src/Pages/Ranges/Frozen.antt =====
-- Which moments portal/src/app/(app)/dashboard/page.tsx and analytics/page.tsx keep.
use mutell_demo.Prelude.{ℕ, ◌≡◌, ◌≢◌, refl, ◌∙◌, ap, List, [], ◌∷◌, map, none, some, arith}
use mutell_demo.Types.{day}
use mutell_demo.Pages.Ranges.{
  Dates, Window, opened, draw, draw_all, dashboard_query, analytics_query,
}

draw_all-end : (d : Dates) (rs : List (ℕ × ℕ)) (w : Window) → (draw_all d rs w).end ≡ w.end
unfolding draw_all
draw_all-end d [] w = refl
draw_all-end d (r ∷ rs) w = draw_all-end d rs (draw d r.0 r.1 w)

-- Drawings with the same number of days.
abbrev pub again : ℕ → List ℕ → List (ℕ × ℕ)
again n moments = map (λ t. (n, t)) moments

draw-same : (d : Dates) (t : ℕ) (w : Window) → draw d w.days t w ≡ w
unfolding draw
draw-same d t w = ground arith

draw_all-again :
    (d : Dates) (moments : List ℕ) (w : Window) → draw_all d (again w.days moments) w ≡ w
unfolding draw_all
draw_all-again d [] w = refl
draw_all-again d (t ∷ moments) w =
    ap (draw_all d (again w.days moments)) (draw-same d t w) ∙ draw_all-again d moments w

draw-changed :
    (d : Dates) (n t : ℕ) (w : Window)
    → w.days ≢ n
    → draw d n t w ≡ record { days = n; start = d.sub_days t n; end = w.end }
unfolding draw
draw-changed d n t w changed = ground arith

-- A page was opened at one moment and has since been drawn any number of times, with any numbers of
-- days; then the number of days is changed to another one, and the page is drawn with that any
-- number of times. Whatever the moments of these drawings, the dashboard and the analytics page ask
-- for the time between that number of days before the change and the opening of the page.
pub window_lem :
    (d : Dates) (m opening : ℕ) (rs : List (ℕ × ℕ)) (n t : ℕ) (moments : List ℕ)
    → (draw_all d rs (opened d m opening)).days ≢ n
    → (dashboard_query d
          (draw_all d (again n moments) (draw d n t (draw_all d rs (opened d m opening))))
        ≡ record {
          period_type = some day;
          period_start = some (d.iso (d.sub_days t n));
          period_end = some (d.iso opening);
          terminal_id = none;
        })
      × (analytics_query d
            (draw_all d (again n moments) (draw d n t (draw_all d rs (opened d m opening))))
          ≡ record {
            date_from = some (d.iso (d.sub_days t n));
            date_to = some (d.iso opening);
            terminal_id = none;
          })
unfolding opened dashboard_query analytics_query
window_lem d m opening rs n t moments changed =
    (ap (dashboard_query d) kept, ap (analytics_query d) kept)
  where
    kept :
        draw_all d (again n moments) (draw d n t (draw_all d rs (opened d m opening)))
        ≡ record { days = n; start = d.sub_days t n; end = opening }
    kept =
        ap (draw_all d (again n moments))
          (draw-changed d n t (draw_all d rs (opened d m opening)) changed)
        ∙ (draw_all-again d moments _
            ∙ ap (λ e. record { days = n; start = d.sub_days t n; end = e })
                (draw_all-end d rs (opened d m opening)))
