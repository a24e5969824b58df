-- ===== src/Prelude/Decimal/Digits.antt =====
-- The digits that a text begins with, and what follows them.
use Prim.Native.Nat.{ℕ, zero, suc, ◌+◌, ◌-◌, ◌*◌, ◌/◌, ◌%◌, ◌≤◌, ◌<◌}
use Prim.Native.Char.{code}
use Prim.Native.String.{String}
use mathlib.Core.Path.{◌≡◌, refl, sym}
use mathlib.Core.Bool.{true, ◌&&◌}
use mathlib.Core.Logic.{inl, inr}
use text.Mathlib.TextLemmas.{cons-append, nil-append}
use native.Mathlib.Omega.{arith}
use mutell_demo.Prelude.Tests.{ltb, leb, if◌then◌else◌, if_intro, Bool-cases}
use mutell_demo.Prelude.Text.{◌+++◌}
use mutell_demo.Prelude.Decimal.{digit, print, decimal, digit-code}

unfoldable pub digits_of : ℕ → String → ℕ × String
digits_of seen String.[] = (seen, String.[])
digits_of seen (String.◌∷◌ c s) =
    let more = digits_of (seen * 10 + (code c - 48)) s in
    if leb 48 (code c) && leb (code c) 57 then more else (seen, String.◌∷◌ c s)

digits_of-digit :
    (seen d : ℕ) (rest : String)
    → d < 10
    → digits_of seen (String.◌∷◌ (digit d) rest) ≡ digits_of (seen * 10 + d) rest
unfolding digits_of
digits_of-digit seen d rest small =
    let h = digit-code d small in
    let is_digit : (leb 48 (code (digit d)) && leb (code (digit d)) 57) ≡ true = ground arith in
    let at : code (digit d) - 48 ≡ d = omega arith in rw is_digit (rw at refl)

digits_of-print :
    (fuel n : ℕ) (rest : String) → n ≤ fuel → digits_of 0 (print fuel n rest) ≡ digits_of n rest
unfolding print
digits_of-print zero n rest enough = ground (arith, digits_of-digit 0 (n % 10) rest (omega arith))
digits_of-print (suc fuel) n rest enough =
    if_intro (λ text. digits_of 0 text ≡ digits_of n rest) (ltb n 10)
      (λ small. ground (arith, digits_of-digit 0 (n % 10) rest (omega arith)))
      (λ large. ground (
        arith,
        digits_of-print fuel (n / 10) (String.◌∷◌ (digit (n % 10)) rest) (ground arith),
        digits_of-digit (n / 10) (n % 10) rest (omega arith),
      ))

print-append : (fuel n : ℕ) (s rest : String) → print fuel n (s +++ rest) ≡ print fuel n s +++ rest
unfolding print
print-append zero n s rest = sym (cons-append (digit (n % 10)) s rest)
print-append (suc fuel) n s rest = elim (Bool-cases (ltb n 10)) [
  | inl e ↦ rw e (sym (cons-append (digit (n % 10)) s rest))
  | inr e ↦ rw e (
      rw (← cons-append (digit (n % 10)) s rest)
        (print-append fuel (n / 10) (String.◌∷◌ (digit (n % 10)) s) rest))
]

-- A printed number is read back, whatever follows it.
pub digits_of-decimal :
    (n : ℕ) (rest : String) → digits_of 0 (decimal n +++ rest) ≡ digits_of n rest
unfolding decimal
digits_of-decimal n rest =
    rw (← print-append n n String.[] rest)
      (rw (nil-append rest) (digits_of-print n n rest (omega arith)))
