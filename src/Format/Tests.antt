-- ===== src/Format/Tests.antt =====
-- portal/src/lib/format.ts on some texts.
use mutell_demo.Prelude.{◌/◌, ◌-◌, ◌≡◌, refl, if◌then◌else◌, ltb, decimal, ◌+++◌}
use mutell_demo.Format.{format_duration, format_relative_time, truncate}
use mutell_demo.Format.Laws.{read_duration, read_duration-format_duration, format_relative_time_lem}
use mutell_demo.Format.Plain.{plain}

printed :
    (format_duration 59 ≡ "59s")
    × (format_duration 120 ≡ "2m")
    × (format_duration 125 ≡ "2m 5s")
    × (format_relative_time plain "x" ≡ "2h ago")
    × (truncate "abcdef" 4 ≡ "abcd...")
    × (truncate "abcd" 4 ≡ "abcd")
unfolding format_duration format_relative_time truncate decimal
printed = (refl, refl, refl, refl, refl, refl)

read_duration-format_duration_example : read_duration (format_duration 125) ≡ 125
read_duration-format_duration_example = read_duration-format_duration 125

format_relative_time_lem_example : format_relative_time plain "x" ≡ (
    let ms = 10000000 - 100000 in
    if ltb ms 60000
    then "just now"
    else if ltb ms 3600000
    then decimal (ms / 60000) +++ "m ago"
    else if ltb ms 86400000
    then decimal (ms / 3600000) +++ "h ago"
    else if ltb ms 604800000
    then decimal (ms / 86400000) +++ "d ago"
    else "x")
format_relative_time_lem_example = format_relative_time_lem plain "x" 100000 refl
