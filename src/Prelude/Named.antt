-- ===== src/Prelude/Named.antt =====
-- Association lists with texts for keys: Go's built-in maps, where the order is not read.
use card_client.Prelude.Tests.{if◌then◌else◌}
use Prim.Native.Nat.{suc, ◌≤◌}
use Prim.Native.String.{String}
use mathlib.Core.Path.{◌≡◌, refl}
use mathlib.Core.List.{List, [], ◌∷◌}
use mathlib.Core.Option.{Option, none, some}
use native.Mathlib.Omega.{arith}
use text.Mathlib.Text.{◌==◌ as str_eq}
use text.Mathlib.TextEquality.{eq_iff}
use card_client.Prelude.Lists.{length}

module _ {V : Type 0} where
  -- m[name] = new; a name that is there keeps its place.
  unfoldable pub insert : String → V → List (String × V) → List (String × V)
  insert name new [] = (name, new) ∷ []
  insert name new ((found, held) ∷ others) =
      if str_eq found name then (name, new) ∷ others else (found, held) ∷ insert name new others

  -- delete(m, name)
  unfoldable pub erase : String → List (String × V) → List (String × V)
  erase name [] = []
  erase name ((found, held) ∷ others) =
      let rest = erase name others in if str_eq found name then rest else (found, held) ∷ rest

  -- m[name]
  unfoldable pub lookup : String → List (String × V) → Option V
  lookup name [] = none
  lookup name ((found, held) ∷ others) = if str_eq found name then some held else lookup name others

  pub lookup-erase :
      (name other : String) (m : List (String × V))
      → lookup other (erase name m) ≡ (if str_eq name other then none else lookup other m)
  unfolding lookup erase
  lookup-erase name other [] = ground arith
  lookup-erase name other ((found, held) ∷ others) =
      let rest = lookup-erase name other others in
      ground (arith, rest, eq_iff found name, eq_iff found other, eq_iff name other)

  pub lookup-insert :
      (name other : String) (new : V) (m : List (String × V))
      → lookup other (insert name new m) ≡ (if str_eq name other then some new else lookup other m)
  unfolding insert lookup
  lookup-insert name other new [] = refl
  lookup-insert name other new ((found, held) ∷ others) =
      let rest = lookup-insert name other new others in
      ground (arith, rest, eq_iff found name, eq_iff found other, eq_iff name other)

  pub length-insert :
      (name : String) (new : V) (m : List (String × V))
      → length (insert name new m) ≤ suc (length m)
  unfolding insert
  length-insert name new [] = omega arith
  length-insert name new ((found, held) ∷ others) =
      let rest = length-insert name new others in ground (arith, rest)

  pub length-erase : (name : String) (m : List (String × V)) → length (erase name m) ≤ length m
  unfolding erase
  length-erase name [] = omega arith
  length-erase name ((found, held) ∷ others) =
      let rest = length-erase name others in ground (arith, rest)
