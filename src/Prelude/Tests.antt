-- ===== src/Prelude/Tests.antt =====
-- Boolean tests on numbers and texts, the conditional, and what JavaScript takes for true.
use Prim.Native.Nat.{ℕ, compare, Ordering}
use Prim.Native.String.{String}
use mathlib.Core.Path.{◌≡◌, refl}
use mathlib.Core.Bool.{Bool, true, false, not}
use mathlib.Core.Logic.{◌⊎◌, ◌≢◌, inl, inr}
use native.Mathlib.Omega.{arith}
use text.Mathlib.TextEquality.{eq_iff}
use mathlib.Core.Option.{Option, none, some}
use text.Mathlib.Text.{◌==◌ as text_eq}

abbrev pub ltb : ℕ → ℕ → Bool
ltb a b = elim (compare a b) [ Ordering.lt ↦ true | _ ↦ false ]

abbrev pub leb : ℕ → ℕ → Bool
leb a b = elim (compare a b) [ Ordering.gt ↦ false | _ ↦ true ]

infix 50 ◌==◌
abbrev pub ◌==◌ : ℕ → ℕ → Bool
a == b = elim (compare a b) [ Ordering.eq ↦ true | _ ↦ false ]

-- `===` on texts.
abbrev pub str_eq : String → String → Bool
str_eq = text_eq

infix 1 if◌then◌else◌
abbrev pub if◌then◌else◌ {ℓ} : {A : Type ℓ} → Bool → A → A → A
if true then x else y = x
if false then x else y = y

pub Bool-cases : (b : Bool) → (b ≡ true) ⊎ (b ≡ false)
Bool-cases true = inl refl
Bool-cases false = inr refl

pub Option-cases {ℓ} : {A : Type ℓ} (o : Option A) → (o ≡ none) ⊎ ((a : A) × (o ≡ some a))
Option-cases none = inl refl
Option-cases (some a) = inr (a, refl)

-- A text counts as true in a condition unless it is empty.
abbrev pub is_truthy : String → Bool
is_truthy s = not (text_eq s "")

-- `o || fallback` where `o` may be missing.
abbrev pub or_else : Option String → String → String
or_else none fallback = fallback
or_else (some s) fallback = if is_truthy s then s else fallback

-- `s || undefined`.
abbrev pub or_undefined : String → Option String
or_undefined s = if is_truthy s then some s else none

-- `o ?? fallback`.
abbrev pub coalesce {ℓ} : {A : Type ℓ} → Option A → A → A
coalesce none fallback = fallback
coalesce (some a) fallback = a

-- `!!o`, and `o` in a condition, where `o` is no text.
abbrev pub is_some {ℓ} : {A : Type ℓ} → Option A → Bool
is_some none = false
is_some (some a) = true

-- To prove something of a conditional, branch by branch.
pub if_intro {ℓ κ} :
    {A : Type ℓ} (P : A → Type κ) (b : Bool) {x y : A}
    → (b ≡ true → P x)
    → (b ≡ false → P y)
    → P (if b then x else y)
if_intro P true h k = h refl
if_intro P false h k = k refl

-- A fallback that is not empty keeps the result from being empty.
pub or_else-ne : (o : Option String) (fallback : String) → fallback ≢ "" → or_else o fallback ≢ ""
or_else-ne none fallback h = h
or_else-ne (some s) fallback h = ground (arith, eq_iff s "")
