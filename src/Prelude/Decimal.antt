-- ===== src/Prelude/Decimal.antt =====
-- Numbers as texts: JavaScript's `String(n)` on a natural number, and `parseInt(s, 10)`.
pub mod Numbers
pub mod Digits
use Prim.Native.Nat.{ℕ, zero, suc, ◌+◌, ◌-◌, ◌*◌, ◌/◌, ◌%◌, ◌≤◌, ◌<◌}
use Prim.Native.Char.{Char, code}
use Prim.Native.String.{String}
use mathlib.Core.Path.{◌≡◌, refl, ◌∙◌, ap}
use mathlib.Core.Bool.{Bool, true, false, ◌&&◌}
use mathlib.Core.Option.{Option, none, some}
use native.Mathlib.Omega.{arith}
use mutell_demo.Prelude.Tests.{ltb, leb, ◌==◌, if◌then◌else◌, if_intro}
use mutell_demo.Prelude.Text.{is_space, trim_start}

abbrev pick : String → ℕ → Char
pick String.[] i = "9"
pick (String.◌∷◌ c s) zero = c
pick (String.◌∷◌ c s) (suc i) = pick s i

abbrev digit : ℕ → Char
digit = pick "0123456789"

-- The digits of `n` before a text; a step leaves the tenth of `n`, so `n` steps are enough.
print : ℕ → ℕ → String → String
print zero n rest = String.◌∷◌ (digit (n % 10)) rest
print (suc fuel) n rest =
    let last = String.◌∷◌ (digit (n % 10)) rest in
    let more = print fuel (n / 10) last in if ltb n 10 then last else more

-- `String(n)`
unfoldable pub decimal : ℕ → String
unfolding print
decimal n = print n n String.[]

-- The digits that a text starts with, after digits of the value given, if any.
scan : Option ℕ → String → Option ℕ
scan seen String.[] = seen
scan seen (String.◌∷◌ c s) =
    let value = (elim seen [ none ↦ 0 | some v ↦ v ]) * 10 + (code c - 48) in
    let rest = scan (some value) s in if leb 48 (code c) && leb (code c) 57 then rest else seen

-- A number with its sign; true is minus.
sign : String → Bool × String
sign String.[] = (false, String.[])
sign (String.◌∷◌ c s) =
    if code c == 45 then (true, s) else if code c == 43 then (false, s) else (false, String.◌∷◌ c s)

-- `parseInt(s, 10)`; `none` is `NaN`.
unfoldable pub parse_int : String → Option (Bool × ℕ)
unfolding scan sign trim_start
parse_int s =
    let (minus, digits) = sign (trim_start s) in
    elim (scan none digits) as (λ x. Option (Bool × ℕ)) [ none ↦ none | some n ↦ some (minus, n) ]

digit-code : (d : ℕ) → d < 10 → code (digit d) ≡ 48 + d
digit-code zero h = refl
digit-code (suc zero) h = refl
digit-code (suc (suc zero)) h = refl
digit-code (suc (suc (suc zero))) h = refl
digit-code (suc (suc (suc (suc zero)))) h = refl
digit-code (suc (suc (suc (suc (suc zero))))) h = refl
digit-code (suc (suc (suc (suc (suc (suc zero)))))) h = refl
digit-code (suc (suc (suc (suc (suc (suc (suc zero))))))) h = refl
digit-code (suc (suc (suc (suc (suc (suc (suc (suc zero)))))))) h = refl
digit-code (suc (suc (suc (suc (suc (suc (suc (suc (suc zero))))))))) h = refl
digit-code (suc (suc (suc (suc (suc (suc (suc (suc (suc (suc n)))))))))) h = absurd (omega arith)

abbrev value : Option ℕ → ℕ
value seen = elim seen [ none ↦ 0 | some v ↦ v ]

scan-first :
    (seen : Option ℕ) (c : Char) (rest : String)
    → scan seen (String.◌∷◌ c rest) ≡ (
        if leb 48 (code c) && leb (code c) 57
        then scan (some (value seen * 10 + (code c - 48))) rest
        else seen)
unfolding scan
scan-first seen c rest = refl

scan-digit :
    (seen : Option ℕ) (d : ℕ) (rest : String)
    → d < 10
    → scan seen (String.◌∷◌ (digit d) rest) ≡ scan (some (value seen * 10 + d)) rest
scan-digit seen d rest small =
    let h = digit-code d small in
    let is_digit : (leb 48 (code (digit d)) && leb (code (digit d)) 57) ≡ true = ground (arith) in
    let at : code (digit d) - 48 ≡ d = omega arith in
    rw (scan-first seen (digit d) rest) (rw is_digit (rw at refl))

scan-print :
    (fuel n : ℕ) (rest : String) → n ≤ fuel → scan none (print fuel n rest) ≡ scan (some n) rest
unfolding print
scan-print zero n rest enough = ground (arith, scan-digit none (n % 10) rest (omega arith))
scan-print (suc fuel) n rest enough =
    if_intro (λ text. scan none text ≡ scan (some n) rest) (ltb n 10)
      (λ small. ground (arith, scan-digit none (n % 10) rest (omega arith)))
      (λ large. ground (
        arith,
        scan-print fuel (n / 10) (String.◌∷◌ (digit (n % 10)) rest) (ground arith),
        scan-digit (some (n / 10)) (n % 10) rest (omega arith),
      ))

print-first :
    (fuel n : ℕ) (rest : String)
    → (d : ℕ) × (s : String) × (d < 10) × (print fuel n rest ≡ String.◌∷◌ (digit d) s)
unfolding print
print-first zero n rest = (n % 10, rest, omega arith, refl)
print-first (suc fuel) n rest =
    if_intro
      (λ (text : String). (d : ℕ) × (s : String) × (d < 10) × (text ≡ String.◌∷◌ (digit d) s))
      (ltb n 10) (λ small. (n % 10, rest, omega arith, refl))
      (λ large. print-first fuel (n / 10) (String.◌∷◌ (digit (n % 10)) rest))

-- A text that begins with a digit has no white space or sign to drop.
plain :
    (d : ℕ) (s : String)
    → d < 10
    → sign (trim_start (String.◌∷◌ (digit d) s)) ≡ (false, String.◌∷◌ (digit d) s)
unfolding sign trim_start
plain d s small =
    let h = digit-code d small in
    let solid : is_space (code (digit d)) ≡ false = ground arith in
    let not_minus : (code (digit d) == 45) ≡ false = ground arith in
    let not_plus : (code (digit d) == 43) ≡ false = ground arith in
    rw solid (rw not_minus (rw not_plus refl))

-- A printed number is read back.
pub parse_int-decimal : (n : ℕ) → parse_int (decimal n) ≡ some (false, n)
unfolding parse_int decimal
parse_int-decimal n =
    let (d, s, small, first) = print-first n n String.[] in
    let same : sign (trim_start (print n n String.[])) ≡ (false, print n n String.[]) =
      rw first (plain d s small) in
    let value : scan none (print n n String.[]) ≡ some n =
      scan-print n n String.[] (omega arith) ∙ (unfold scan in refl) in
    rw (parse_int, same) (rw value (ap (λ x. some (x.0, n)) same))
