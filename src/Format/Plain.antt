-- ===== src/Format/Plain.antt =====
-- A locale that prints plainly, for examples.
use mutell_demo.Prelude.{some, decimal}
use mutell_demo.Format.{Locale}

abbrev pub plain : Locale
plain = record {
  now = 10000000;
  time_of = λ s. some 100000;
  local_date = λ s. s;
  local_string = λ s. s;
  iso = λ s. s;
  month_day = λ s. s;
  month_day_year = λ s. s;
  number = decimal;
}
