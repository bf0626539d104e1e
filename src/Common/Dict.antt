-- ===== src/Common/Dict.antt =====
-- `Map` and plain objects with text keys, as association lists in insertion order.
use Prim.Native.String.{String}
use mathlib.Core.Path.{◌≡◌, refl}
use mathlib.Core.Option.{Option, none, some}
use mathlib.Core.List.{List, [], ◌∷◌}
use native.Mathlib.Omega.{arith}
use text.Mathlib.Text.{◌==◌ as str_eq}
use text.Mathlib.TextEquality.{eq_iff}
use strav_1_x.Common.Tests.{if◌then◌else◌}

abbrev pub Dict {ℓ} : Type ℓ → Type ℓ
Dict V = List (String × V)

module _ {ℓ} {V : Type ℓ} where
  unfoldable pub lookup : String → Dict V → Option V
  lookup key [] = none
  lookup key ((k, v) ∷ rest) = if str_eq k key then some v else lookup key rest

  unfoldable pub erase : String → Dict V → Dict V
  erase key [] = []
  erase key ((k, v) ∷ rest) =
      let others = erase key rest in if str_eq k key then others else (k, v) ∷ others

  -- An existing key keeps its place.
  unfoldable pub insert : String → V → Dict V → Dict V
  insert key new [] = (key, new) ∷ []
  insert key new ((k, v) ∷ rest) =
      if str_eq k key then (key, new) ∷ rest else (k, v) ∷ insert key new rest

  pub lookup-erase :
      (key sought : String) (dict : Dict V)
      → lookup sought (erase key dict) ≡ (if str_eq key sought then none else lookup sought dict)
  unfolding lookup erase
  lookup-erase key sought [] = ground arith
  lookup-erase key sought ((k, v) ∷ rest) =
      ground (arith, eq_iff key sought, eq_iff k key, eq_iff k sought, lookup-erase key sought rest)

  pub lookup-insert :
      (key sought : String) (new : V) (dict : Dict V)
      → lookup sought (insert key new dict)
        ≡ (if str_eq key sought then some new else lookup sought dict)
  unfolding lookup insert
  lookup-insert key sought new [] = refl
  lookup-insert key sought new ((k, v) ∷ rest) =
      ground
        (arith, eq_iff key sought, eq_iff k key, eq_iff k sought, lookup-insert key sought new rest)
