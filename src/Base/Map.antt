-- ===== src/Base/Map.antt =====
-- The JavaScript `Map` with string keys: entries in the order of their first insertion. Writing an
-- existing key keeps its place, and an object that is mutated through a reference got from the map
-- is a write at its key.
pub mod Laws
use Prim.Native.Nat.{ℕ}
use Prim.Native.String.{String}
use mathlib.Core.Path.{◌≡◌}
use mathlib.Core.Bool.{Bool}
use mathlib.Core.List.{List, [], ◌∷◌}
use mathlib.Core.Option.{Option, none, some}
use text.Mathlib.Text.{◌==◌ as str_eq}
use sync_engine.Base.Tests.{if◌then◌else◌, is_some}
use sync_engine.Base.Lists.{length}

abbrev pub Map {ℓ} : Type ℓ → Type ℓ
Map V = List (String × V)

module _ {ℓ} {V : Type ℓ} where
  unfoldable pub get : Map V → String → Option V
  get [] k = none
  get ((j, v) ∷ m) k = if str_eq j k then some v else get m k

  unfoldable pub set : Map V → String → V → Map V
  set [] k v = (k, v) ∷ []
  set ((j, w) ∷ m) k v = if str_eq j k then (j, v) ∷ m else (j, w) ∷ set m k v

  unfoldable pub delete : Map V → String → Map V
  delete [] k = []
  delete ((j, v) ∷ m) k = let rest = delete m k in if str_eq j k then rest else (j, v) ∷ rest

  abbrev pub has : Map V → String → Bool
  has m k = is_some (get m k)

  abbrev pub size : Map V → ℕ
  size m = length m

  -- `Array.from(m.values())`
  unfoldable pub values : Map V → List V
  values [] = []
  values ((k, v) ∷ m) = v ∷ values m

  -- `Array.from(m.keys())`
  unfoldable pub keys : Map V → List String
  keys [] = []
  keys ((k, v) ∷ m) = k ∷ keys m

  -- One pass of a loop over the map that updates each value in place.
  unfoldable pub map_values : (String → V → V) → Map V → Map V
  map_values f [] = []
  map_values f ((k, v) ∷ m) = (k, f k v) ∷ map_values f m

  -- A pass that deletes the entries which fail the test.
  unfoldable pub keep_if : (String → V → Bool) → Map V → Map V
  keep_if p [] = []
  keep_if p ((k, v) ∷ m) = let rest = keep_if p m in if p k v then (k, v) ∷ rest else rest

  -- No key stands twice.
  unfoldable pub Distinct : Map V → Type ℓ
  Distinct [] = Unit
  Distinct ((k, v) ∷ m) = (get m k ≡ none) × Distinct m
