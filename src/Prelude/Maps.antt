-- ===== src/Prelude/Maps.antt =====
-- Families indexed by a number, and objects used as dictionaries.
use Prim.Native.Nat.{ℕ}
use Prim.Native.String.{String}
use mathlib.Core.Path.{◌≡◌}
use mathlib.Core.Option.{Option, none, some}
use mathlib.Core.List.{List, [], ◌∷◌}
use native.Mathlib.Omega.{arith}
use text.Mathlib.TextEquality.{eq_iff}
use mutell_demo.Prelude.Tests.{◌==◌, str_eq, if◌then◌else◌}

abbrev pub update {ℓ} : {A : Type ℓ} → (ℕ → A) → ℕ → A → ℕ → A
update f i a j = if i == j then a else f j

module _ {ℓ} {V : Type ℓ} where
  -- `o[key]`; `none` is `undefined`.
  unfoldable pub lookup : String → List (String × V) → Option V
  lookup key [] = none
  lookup key (entry ∷ rest) = if str_eq entry.0 key then some entry.1 else lookup key rest

  -- `o[key] = new`: in place where the key is there, else at the end.
  unfoldable pub assign : String → V → List (String × V) → List (String × V)
  assign key new [] = (key, new) ∷ []
  assign key new (entry ∷ rest) =
      if str_eq entry.0 key then (key, new) ∷ rest else entry ∷ assign key new rest

  -- Only the key that is written to is read differently afterwards.
  pub lookup-assign :
      (key at : String) (new : V) (o : List (String × V))
      → lookup at (assign key new o) ≡ (if str_eq at key then some new else lookup at o)
  unfolding assign lookup
  lookup-assign key at new [] = ground (arith, eq_iff key at, eq_iff at key)
  lookup-assign key at new (entry ∷ rest) = ground (
    arith,
    lookup-assign key at new rest,
    eq_iff at key,
    eq_iff key at,
    eq_iff entry.0 at,
    eq_iff entry.0 key,
  )
