-- ===== src/Format.antt =====
-- portal/src/lib/format.ts. What the browser does with dates and numbers is an argument.
pub mod Laws
pub mod Plain
mod Tests
use mutell_demo.Prelude.{
  ℕ, zero, suc, ◌+◌, ◌-◌, ◌/◌, ◌%◌, String, Option, none, some, ltb, leb, if◌then◌else◌, decimal,
  utf16_length, ◌+++◌,
}
use Prim.Native.Char.{code}

-- The present time, and the ways in which the portal reads and prints dates and numbers: the
-- milliseconds of a date, if it is one, `toLocaleDateString`, `toLocaleString`, `toISOString`,
-- `format` with "MMM dd" and with "MMM dd, yyyy", and `Intl.NumberFormat`.
pub record Locale : Type 0 where
  pub now : ℕ
  pub time_of : String → Option ℕ
  pub local_date : String → String
  pub local_string : String → String
  pub iso : String → String
  pub month_day : String → String
  pub month_day_year : String → String
  pub number : ℕ → String

-- `formatNumber`
abbrev pub format_number : Locale → ℕ → String
format_number l n = l.number n

-- `formatDuration`
unfoldable pub format_duration : ℕ → String
unfolding decimal
format_duration secs =
    if ltb secs 60
    then decimal secs +++ "s"
    else let m = secs / 60 in
      let s = secs % 60 in
      if ltb 0 s then decimal m +++ ("m " +++ (decimal s +++ "s")) else decimal m +++ "m"

-- `formatRelativeTime`. A date in the future leaves a negative difference, which is below 60
-- seconds as 0 is; with a text that is no date each comparison fails.
unfoldable pub format_relative_time : Locale → String → String
unfolding decimal
format_relative_time l date = elim (l.time_of date) as (λ x. String) [
  | none ↦ l.local_date date
  | some time ↦
      let diff_ms = l.now - time in
      let diff_secs = diff_ms / 1000 in
      let diff_mins = diff_secs / 60 in
      let diff_hours = diff_mins / 60 in
      let diff_days = diff_hours / 24 in
      if ltb diff_secs 60
      then "just now"
      else if ltb diff_mins 60
      then decimal diff_mins +++ "m ago"
      else if ltb diff_hours 24
      then decimal diff_hours +++ "h ago"
      else if ltb diff_days 7
      then decimal diff_days +++ "d ago"
      else l.local_date date
]

-- `s.slice(0, len)` in UTF-16 units; a character of two units is not cut in half but left out.
unfoldable pub slice : String → ℕ → String
slice String.[] len = String.[]
slice (String.◌∷◌ c s) len =
    let units = if ltb (code c) 0x10000 then 1 else 2 in
    let rest = slice s (len - units) in if leb units len then String.◌∷◌ c rest else String.[]

-- `truncate`
unfoldable pub truncate : String → ℕ → String
unfolding slice utf16_length
truncate s len = if leb (utf16_length s) len then s else slice s len +++ "..."
