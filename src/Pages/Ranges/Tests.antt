-- ===== src/Pages/Ranges/Tests.antt =====
-- A page that stays open for three days.
use mutell_demo.Prelude.{ℕ, ◌-◌, ◌*◌, ◌≡◌, refl, true, some, none, [], ◌∷◌, decimal, ltb, arith}
use mutell_demo.Types.{day}
use mutell_demo.Pages.Dashboard.{one_day}
use mutell_demo.Pages.Ranges.{
  Dates, opened, open_dashboard, choose_range, draw, draw_all, dashboard_query, analytics_query,
}
use mutell_demo.Pages.Ranges.Frozen.{again, window_lem}

abbrev day_ms : ℕ
day_ms = 86400000

-- Days of one length.
abbrev utc : Dates
utc = record { sub_days = λ t n. t - n * day_ms; iso = λ t. decimal t }

-- Opened on the tenth day, and one day is chosen on the thirteenth: the start is after the end.
upside_down :
    ltb
      (open_dashboard utc (10 * day_ms)).end
      (choose_range utc one_day (13 * day_ms) (open_dashboard utc (10 * day_ms))).start
    ≡ true
unfolding open_dashboard choose_range draw
upside_down = refl

window_lem_example :
    (dashboard_query utc
        (draw_all utc (again 1 (950 ∷ [])) (draw utc 1 900 (draw_all utc [] (opened utc 7 800))))
      ≡ record {
        period_type = some day;
        period_start = some (decimal (900 - 1 * day_ms));
        period_end = some (decimal 800);
        terminal_id = none;
      })
    × (analytics_query utc
          (draw_all utc (again 1 (950 ∷ [])) (draw utc 1 900 (draw_all utc [] (opened utc 7 800))))
        ≡ record {
          date_from = some (decimal (900 - 1 * day_ms));
          date_to = some (decimal 800);
          terminal_id = none;
        })
unfolding draw_all opened
window_lem_example = window_lem utc 7 800 [] 1 900 (950 ∷ []) (omega arith)
