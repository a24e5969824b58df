-- ===== src/Prelude/Decimal/Numbers.antt =====
-- JavaScript's `Number(s)`, as the number fields of the portal use it.
use Prim.Native.Nat.{ℕ, zero, suc, ◌+◌, ◌-◌, ◌*◌, ◌/◌, ◌%◌, ◌≤◌, ◌<◌}
use Prim.Native.Char.{code}
use Prim.Native.String.{String}
use mathlib.Core.Path.{◌≡◌, refl, ◌∙◌, ap}
use mathlib.Core.Bool.{true, false, ◌&&◌}
use mathlib.Core.Option.{Option, none, some}
use native.Mathlib.Omega.{arith}
use mutell_demo.Prelude.Tests.{ltb, leb, if◌then◌else◌, if_intro}
use mutell_demo.Prelude.Text.{is_space, is_blank, trim_start}
use mutell_demo.Prelude.Decimal.{digit, print, decimal, digit-code, print-first}

-- A natural number, or what another text comes to: a negative number, a fraction, one with an
-- exponent, or `NaN`, by the text.
pub data Number : Type 0 where
  whole : ℕ → Number
  other : String → Number

-- The digits up to the end of the text, or up to white space that ends it.
to_end : ℕ → String → Option ℕ
unfolding is_blank
to_end seen String.[] = some seen
to_end seen (String.◌∷◌ c s) =
    let more = to_end (seen * 10 + (code c - 48)) s in
    if leb 48 (code c) && leb (code c) 57
    then more
    else if is_blank (String.◌∷◌ c s)
    then some seen
    else none

-- What a text comes to, by the text without the white space that it begins with.
from_trimmed : String → String → Number
unfolding to_end
from_trimmed s String.[] = whole 0
from_trimmed s (String.◌∷◌ c r) =
    if leb 48 (code c) && leb (code c) 57
    then elim (to_end 0 (String.◌∷◌ c r)) as (λ x. Number) [ none ↦ other s | some n ↦ whole n ]
    else other s

-- `Number(s)`; an empty text is 0.
unfoldable pub number_of : String → Number
unfolding from_trimmed trim_start
number_of s = from_trimmed s (trim_start s)

to_end-digit :
    (seen d : ℕ) (rest : String)
    → d < 10
    → to_end seen (String.◌∷◌ (digit d) rest) ≡ to_end (seen * 10 + d) rest
unfolding to_end
to_end-digit seen d rest small =
    let h = digit-code d small in
    let is_digit : (leb 48 (code (digit d)) && leb (code (digit d)) 57) ≡ true = ground arith in
    let at : code (digit d) - 48 ≡ d = omega arith in rw is_digit (rw at refl)

to_end-print :
    (fuel n : ℕ) (rest : String) → n ≤ fuel → to_end 0 (print fuel n rest) ≡ to_end n rest
unfolding print
to_end-print zero n rest enough = ground (arith, to_end-digit 0 (n % 10) rest (omega arith))
to_end-print (suc fuel) n rest enough =
    if_intro (λ text. to_end 0 text ≡ to_end n rest) (ltb n 10)
      (λ small. ground (arith, to_end-digit 0 (n % 10) rest (omega arith)))
      (λ large. ground (
        arith,
        to_end-print fuel (n / 10) (String.◌∷◌ (digit (n % 10)) rest) (ground arith),
        to_end-digit (n / 10) (n % 10) rest (omega arith),
      ))

trimmed :
    (d : ℕ) (s : String) → d < 10 → trim_start (String.◌∷◌ (digit d) s) ≡ String.◌∷◌ (digit d) s
unfolding trim_start
trimmed d s small =
    let h = digit-code d small in
    let solid : is_space (code (digit d)) ≡ false = ground arith in rw solid refl

number_of-digits :
    (d n : ℕ) (s : String)
    → d < 10
    → to_end 0 (String.◌∷◌ (digit d) s) ≡ some n
    → from_trimmed (String.◌∷◌ (digit d) s) (String.◌∷◌ (digit d) s) ≡ whole n
unfolding from_trimmed to_end
number_of-digits d n s small ends =
    let h = digit-code d small in
    let is_digit : (leb 48 (code (digit d)) && leb (code (digit d)) 57) ≡ true = ground arith in
    rw is_digit (rw (rw is_digit at ends) refl)

-- The text of a number comes to that number.
pub number_of-decimal : (n : ℕ) → number_of (decimal n) ≡ whole n
unfolding decimal
number_of-decimal n =
    let (d, s, small, first) = print-first n n String.[] in
    let ends : to_end 0 (print n n String.[]) ≡ some n =
      to_end-print n n String.[] (omega arith) ∙ (unfold to_end in refl) in
    rw first (
      unfold number_of in
      ap (from_trimmed (String.◌∷◌ (digit d) s)) (trimmed d s small)
      ∙ number_of-digits d n s small (rw first at ends))
