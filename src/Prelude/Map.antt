-- ===== src/Prelude/Map.antt =====
-- Go maps over identifiers, as association lists: a key that is absent is `none`.
use Prim.Native.Nat.{ℕ}
use mathlib.Core.Path.{◌≡◌}
use mathlib.Core.Option.{Option, none, some}
use mathlib.Core.List.{List, [], ◌∷◌}
use native.Mathlib.Omega.{arith}
use pons_mm_desktop.Prelude.Tests.{◌==◌, if◌then◌else◌}

module _ {ℓ} {V : Type ℓ} where
  unfoldable pub lookup : ℕ → List (ℕ × V) → Option V
  lookup key [] = none
  lookup key ((other, value) ∷ entries) =
      let later = lookup key entries in if other == key then some value else later

  -- `delete` removes every entry of the key.
  unfoldable pub erase : ℕ → List (ℕ × V) → List (ℕ × V)
  erase key [] = []
  erase key ((other, value) ∷ entries) =
      let later = erase key entries in if other == key then later else (other, value) ∷ later

  -- An assignment drops what the key had before.
  unfoldable pub insert : ℕ → V → List (ℕ × V) → List (ℕ × V)
  unfolding erase
  insert key value entries = (key, value) ∷ erase key entries

  pub lookup-erase :
      (key asked : ℕ) (entries : List (ℕ × V))
      → lookup asked (erase key entries) ≡ (if key == asked then none else lookup asked entries)
  unfolding lookup erase
  lookup-erase key asked [] = ground arith
  lookup-erase key asked ((other, value) ∷ entries) = ground (arith, lookup-erase key asked entries)

  pub lookup-insert :
      (key asked : ℕ) (value : V) (entries : List (ℕ × V))
      → lookup asked (insert key value entries)
        ≡ (if key == asked then some value else lookup asked entries)
  unfolding lookup insert
  lookup-insert key asked value entries = ground (arith, lookup-erase key asked entries)
