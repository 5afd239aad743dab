-- ===== src/Base/Map/Laws.antt =====
-- The laws of the map's operations, by lookup and by size, and the distinctness of its keys.
use Prim.Native.Nat.{◌+◌, ◌≤◌}
use Prim.Native.String.{String}
use mathlib.Core.Path.{◌≡◌, refl}
use mathlib.Core.Bool.{Bool, false}
use mathlib.Core.List.{List, [], ◌∷◌}
use mathlib.Core.Option
use mathlib.Core.Option.{Option, none, some}
use native.Mathlib.Omega.{arith}
use text.Mathlib.Text.{◌==◌ as str_eq}
use text.Mathlib.TextEquality.{eq_iff}
use sync_engine.Base.Tests.{if◌then◌else◌}
use sync_engine.Base.Lists.{All, any}
use sync_engine.Base.Map.{
  Map, get, set, delete, has, size, keys, values, map_values, keep_if, Distinct,
}

abbrev pub keep_value {ℓ} : {V : Type ℓ} → (V → Bool) → Option V → Option V
keep_value p none = none
keep_value p (some v) = if p v then some v else none

module _ {ℓ} {V : Type ℓ} where
  pub get-set :
      (m : Map V) (k j : String) (v : V)
      → get (set m k v) j ≡ (if str_eq k j then some v else get m j)
  unfolding get set
  get-set [] k j v = refl
  get-set ((i, w) ∷ m) k j v = ground (arith, eq_iff k j, eq_iff i k, eq_iff i j, get-set m k j v)

  pub get-set_self : (m : Map V) (k : String) (v : V) → get (set m k v) k ≡ some v
  get-set_self m k v = ground (arith, get-set m k k v, eq_iff k k)

  pub get-delete :
      (m : Map V) (k j : String) → get (delete m k) j ≡ (if str_eq k j then none else get m j)
  unfolding get delete
  get-delete [] k j = ground arith
  get-delete ((i, w) ∷ m) k j = ground (arith, eq_iff k j, eq_iff i k, eq_iff i j, get-delete m k j)

  pub get-map_values :
      (f : String → V → V) (m : Map V) (k : String)
      → get (map_values f m) k ≡ Option.map (f k) (get m k)
  unfolding get map_values
  get-map_values f [] k = refl
  get-map_values f ((i, w) ∷ m) k = ground (arith, eq_iff i k, get-map_values f m k)

  pub size-set :
      (m : Map V) (k : String) (v : V) → size (set m k v) ≡ (if has m k then size m else size m + 1)
  unfolding get set
  size-set [] k v = refl
  size-set ((i, w) ∷ m) k v = ground (arith, size-set m k v)

  pub size-delete-le : (m : Map V) (k : String) → size (delete m k) ≤ size m
  unfolding delete
  size-delete-le [] k = omega arith
  size-delete-le ((i, w) ∷ m) k = ground (arith, size-delete-le m k)

  pub Distinct-set : (m : Map V) (k : String) (v : V) → Distinct m → Distinct (set m k v)
  unfolding Distinct set get
  Distinct-set [] k v d = (refl, tt)
  Distinct-set ((i, w) ∷ m) k v d =
      ground (arith, eq_iff i k, eq_iff k i, get-set m k i v, Distinct-set m k v d.1)

  pub Distinct-delete : (m : Map V) (k : String) → Distinct m → Distinct (delete m k)
  unfolding Distinct delete
  Distinct-delete [] k d = tt
  Distinct-delete ((i, w) ∷ m) k d = ground (arith, get-delete m k i, Distinct-delete m k d.1)

  pub Distinct-map_values :
      (f : String → V → V) (m : Map V) → Distinct m → Distinct (map_values f m)
  unfolding Distinct map_values
  Distinct-map_values f [] d = tt
  Distinct-map_values f ((i, w) ∷ m) d =
      ground (arith, get-map_values f m i, Distinct-map_values f m d.1)

  get-keep_if-none :
      (p : String → V → Bool) (m : Map V) (k : String) → get m k ≡ none → get (keep_if p m) k ≡ none
  unfolding get keep_if
  get-keep_if-none p [] k h = refl
  get-keep_if-none p ((i, w) ∷ m) k h = ground (arith, get-keep_if-none p m k)

  pub Distinct-keep_if : (p : String → V → Bool) (m : Map V) → Distinct m → Distinct (keep_if p m)
  unfolding Distinct keep_if
  Distinct-keep_if p [] d = tt
  Distinct-keep_if p ((i, w) ∷ m) d =
      ground (arith, get-keep_if-none p m i, Distinct-keep_if p m d.1)

  pub get-keep_if :
      (p : String → V → Bool) (m : Map V) (k : String)
      → Distinct m
      → get (keep_if p m) k ≡ keep_value (p k) (get m k)
  unfolding get keep_if Distinct
  get-keep_if p [] k d = refl
  get-keep_if p ((i, w) ∷ m) k d =
      ground (arith, eq_iff i k, get-keep_if p m k d.1, get-keep_if-none p m k)

  -- What holds of every value holds of each value that a lookup returns.
  pub All-get {κ} :
      (P : V → Type κ) (m : Map V) (k : String) (v : V) → All P (values m) → get m k ≡ some v → P v
  unfolding get values
  All-get P ((i, w) ∷ m) k v a e = ground (arith, All-get P m k v a.1)
  All-get P [] k v a e = absurd (cc)

  pub All-set {κ} :
      (P : V → Type κ) (m : Map V) (k : String) (v : V)
      → P v
      → All P (values m)
      → All P (values (set m k v))
  unfolding set values
  All-set P [] k v h a = (h, tt)
  All-set P ((i, w) ∷ m) k v h a = ground (arith, All-set P m k v h a.1)

  pub All-delete {κ} :
      (P : V → Type κ) (m : Map V) (k : String) → All P (values m) → All P (values (delete m k))
  unfolding delete values
  All-delete P [] k a = tt
  All-delete P ((i, w) ∷ m) k a = ground (arith, All-delete P m k a.1)

  pub All-map_values {κ} :
      (P : V → Type κ) (f : String → V → V) (m : Map V)
      → ((k : String) (v : V) → P v → P (f k v))
      → All P (values m)
      → All P (values (map_values f m))
  unfolding map_values values
  All-map_values P f [] h a = tt
  All-map_values P f ((i, w) ∷ m) h a = (h i w a.0, All-map_values P f m h a.1)

-- No text stands twice in the list.
abbrev pub NoRepeat : List String → Type 0
NoRepeat [] = Unit
NoRepeat (x ∷ xs) = (any (str_eq x) xs ≡ false) × NoRepeat xs

module _ {ℓ} {V : Type ℓ} where
  pub any-keys : (m : Map V) (k : String) → any (str_eq k) (keys m) ≡ has m k
  unfolding keys get
  any-keys [] k = refl
  any-keys ((j, v) ∷ m) k = ground (arith, any-keys m k, eq_iff j k, eq_iff k j)

  pub keys-NoRepeat : (m : Map V) → Distinct m → NoRepeat (keys m)
  unfolding keys Distinct
  keys-NoRepeat [] d = tt
  keys-NoRepeat ((j, v) ∷ m) d = ground (arith, any-keys m j, keys-NoRepeat m d.1)
