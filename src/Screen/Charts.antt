-- ===== src/Screen/Charts.antt =====
-- What the charts of the portal draw: the categories along an axis and a series of values for each
-- name. The library that draws them is apexcharts.
use mutell_demo.Prelude.{String, List, ◌≡◌, length, All}

pub record Series (W : Type 0) : Type 0 where
  pub name : String
  pub values : List W

pub record Chart (W : Type 0) : Type 0 where
  pub categories : List String
  pub series : List (Series W)

-- Each series has one value for each category.
abbrev pub IsAligned : {W : Type 0} → Chart W → Type 0
IsAligned {W} c = All (λ (s : Series W). length s.values ≡ length c.categories) c.series
