-- ===== src/Screen/Colors.antt =====
-- The colours of portal/src/components/ui/badge/Badge.tsx, those of the tags in
-- portal/src/components/common/TagBadge.tsx, and those of other texts.

pub data Color : Type 0 where
  primary success error warning info light dark : Color

-- The texts of the scores on the dashboard.
pub data ScoreText : Type 0 where
  success_500 success_600 warning_500 error_500 : ScoreText

pub data Tone : Type 0 where
  orange red purple yellow blue gray green : Tone
