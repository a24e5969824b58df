-- ===== src/Format/Laws.antt =====
-- What the texts of portal/src/lib/format.ts tell.
use mutell_demo.Prelude.{
  ℕ, ◌+◌, ◌-◌, ◌*◌, ◌/◌, ◌%◌, ◌≡◌, refl, ◌∙◌, ap, String, Bool, true, false, some, ltb, str_eq,
  if◌then◌else◌, decimal, ◌+++◌, digits_of, digits_of-decimal, arith, Bool-cases, inl, inr, eq_iff,
}
use Prim.Native.Char.{Char}
use text.Mathlib.TextLemmas.{cons-append, nil-append}
use mutell_demo.Format.{Locale, format_duration, format_relative_time}

-- A reader of durations: the number before an "s" counts seconds, that before an "m" minutes.
abbrev after_minutes : String → String
after_minutes (String.◌∷◌ m (String.◌∷◌ space s)) = s
after_minutes s = s

read_units : ℕ × String → ℕ
unfolding digits_of
read_units (n, unit) =
    if str_eq unit "s"
    then n
    else if str_eq unit "m"
    then n * 60
    else n * 60 + (digits_of 0 (after_minutes unit)).0

pub read_duration : String → ℕ
read_duration s = read_units (digits_of 0 s)

read-seconds : (n : ℕ) → read_duration (decimal n +++ "s") ≡ n
unfolding read_duration
read-seconds n = ap read_units (digits_of-decimal n "s") ∙ (unfold digits_of read_units in refl)

read-minutes : (m : ℕ) → read_duration (decimal m +++ "m") ≡ m * 60
unfolding read_duration
read-minutes m = ap read_units (digits_of-decimal m "m") ∙ (unfold digits_of read_units in refl)

abbrev has_two : String → Bool
has_two (String.◌∷◌ c (String.◌∷◌ d s)) = true
has_two s = false

longer :
    (c d : Char) (s t : String)
    → has_two t ≡ false
    → str_eq (String.◌∷◌ c (String.◌∷◌ d s)) t ≡ false
longer c d s t short = elim (Bool-cases (str_eq (String.◌∷◌ c (String.◌∷◌ d s)) t)) [
  | inl e ↦ absurd (cc (ap has_two ((eq_iff (String.◌∷◌ c (String.◌∷◌ d s)) t).0 e)))
  | inr e ↦ e
]

read-rest :
    (m : ℕ) (seconds : String)
    → read_units (digits_of m (String.◌∷◌ "m" (String.◌∷◌ " " seconds)))
      ≡ m * 60 + (digits_of 0 seconds).0
read-rest m seconds =
    let unit : String = String.◌∷◌ "m" (String.◌∷◌ " " seconds) in
    let not_s : str_eq unit "s" ≡ false = longer "m" " " seconds "s" refl in
    let not_m : str_eq unit "m" ≡ false = longer "m" " " seconds "m" refl in
    unfold digits_of read_units in rw not_s (rw not_m refl)

digits_of-s : (n : ℕ) → digits_of n "s" ≡ (n, "s")
unfolding digits_of
digits_of-s n = refl

read-both : (m s : ℕ) → read_duration (decimal m +++ ("m " +++ (decimal s +++ "s"))) ≡ m * 60 + s
unfolding read_duration
read-both m s =
    let seconds = decimal s +++ "s" in
    let unit : ("m " +++ seconds) ≡ String.◌∷◌ "m" (String.◌∷◌ " " seconds) =
      cons-append "m" " " seconds
      ∙ ap (String.◌∷◌ "m")
          (cons-append " " "" seconds ∙ ap (String.◌∷◌ " ") (nil-append seconds)) in
    ap read_units (digits_of-decimal m ("m " +++ seconds) ∙ ap (digits_of m) unit)
    ∙ read-rest m seconds
    ∙ ap (λ (n : ℕ × String). m * 60 + n.0) (digits_of-decimal s "s" ∙ digits_of-s s)

-- The text of a duration tells it to the second.
pub read_duration-format_duration : (secs : ℕ) → read_duration (format_duration secs) ≡ secs
unfolding format_duration
read_duration-format_duration secs = elim (Bool-cases (ltb secs 60)) [
  | inl short ↦ rw short (read-seconds secs)
  | inr long ↦ rw long (elim (Bool-cases (ltb 0 (secs % 60))) [
    | inl some_left ↦ rw some_left (read-both (secs / 60) (secs % 60) ∙ omega arith)
    | inr none_left ↦ rw none_left (read-minutes (secs / 60) ∙ ground arith)
  ])
]

minutes : (ms : ℕ) → ms / 1000 / 60 ≡ ms / 60000
minutes ms = omega arith

hours : (ms : ℕ) → ms / 60000 / 60 ≡ ms / 3600000
hours ms = omega arith

days : (ms : ℕ) → ms / 3600000 / 24 ≡ ms / 86400000
days ms = omega arith

-- In the words for the time since a date, the minutes, hours and days are the whole ones that the
-- time in milliseconds holds: rounding down step by step loses nothing.
pub format_relative_time_lem :
    (l : Locale) (date : String) (time : ℕ)
    → l.time_of date ≡ some time
    → format_relative_time l date ≡ (
        let ms = l.now - time in
        if ltb ms 60000
        then "just now"
        else if ltb ms 3600000
        then decimal (ms / 60000) +++ "m ago"
        else if ltb ms 86400000
        then decimal (ms / 3600000) +++ "h ago"
        else if ltb ms 604800000
        then decimal (ms / 86400000) +++ "d ago"
        else l.local_date date)
unfolding format_relative_time
format_relative_time_lem l date time known =
    let ms = l.now - time in
    let now : ltb (ms / 1000) 60 ≡ ltb ms 60000 = ground arith in
    let in_minutes : ltb (ms / 60000) 60 ≡ ltb ms 3600000 = ground arith in
    let in_hours : ltb (ms / 3600000) 24 ≡ ltb ms 86400000 = ground arith in
    let in_days : ltb (ms / 86400000) 7 ≡ ltb ms 604800000 = ground arith in
    rw (format_relative_time, known)
      (rw (minutes ms)
        (rw (hours ms) (rw (days ms) (rw now (rw in_minutes (rw in_hours (rw in_days refl)))))))
