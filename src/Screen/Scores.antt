-- ===== src/Screen/Scores.antt =====
-- Scores are numbers of JavaScript with fractions: what the portal does with them, and
-- portal/src/components/common/ScoreBar.tsx, formatPercent of portal/src/lib/format.ts, scoreColor
-- of portal/src/app/(app)/dashboard/page.tsx and the colours in portal/src/app/(app)/slots/page.tsx.
use mutell_demo.Prelude.{
  ℕ, ◌≤◌, String, Bool, true, Option, none, some, if◌then◌else◌, ◌+++◌, ◌≡◌, decimal, leb, arith,
}
use mutell_demo.Screen.Colors.{
  Color, primary, success, warning, error, ScoreText, success_500, success_600, warning_500,
  error_500,
}

-- The numerals among the scores, `>=`, `Math.round` as a text, and `toFixed(1)`.
pub record Scores (W : Type 0) : Type 0 where
  pub of : ℕ → W
  pub ge : W → W → Bool
  pub rounded : W → String
  pub fixed : W → String

-- `>=` goes on through a chain of scores, as it does for all numbers, `NaN` among them.
pub record IsOrdered (W : Type 0) ⦃s : Scores W⦄ : Type 0 where
  pub ge_trans : (x y z : W) → s.ge x y ≡ true → s.ge y z ≡ true → s.ge x z ≡ true
  pub ge-of : (m n : ℕ) → n ≤ m → s.ge (s.of m) (s.of n) ≡ true

-- The laws can be met: scores without fractions.
instance abbrev pub whole_scores : Scores ℕ
whole_scores = record {
  of = λ n. n;
  ge = λ x y. leb y x;
  rounded = decimal;
  fixed = λ n. decimal n +++ ".0";
}

pub ℕ-IsOrdered : IsOrdered ℕ
ℕ-IsOrdered = record { ge_trans = λ x y z h k. ground arith; ge-of = λ m n h. ground arith }

module _ {W : Type 0} ⦃s : Scores W⦄ where
  -- `formatPercent`
  unfoldable pub format_percent : W → String
  format_percent x = s.rounded x +++ "%"

  -- The colours of `ScoreBar`, of its bar and of its text, up to their shade; brand is `primary`.
  unfoldable pub bar_color : W → Color
  bar_color value =
      if s.ge value (s.of 80)
      then success
      else if s.ge value (s.of 60)
      then primary
      else if s.ge value (s.of 40)
      then warning
      else error

  -- `ScoreBar`: its colour and its text.
  unfoldable pub score_bar : Option W → Color × String
  unfolding bar_color
  score_bar none = (bar_color (s.of 0), "—")
  score_bar (some value) = (bar_color value, s.rounded value +++ "%")

  -- `scoreColor`, of the dashboard.
  unfoldable pub score_color : W → ScoreText
  score_color score =
      if s.ge score (s.of 85)
      then success_500
      else if s.ge score (s.of 70)
      then success_600
      else if s.ge score (s.of 55)
      then warning_500
      else error_500
