-- ===== src/Prelude/Dict.antt =====
-- Go's `map[string]V`. Clients reason by the laws of `dict_laws`; the order of the entries is never
-- read by the program.
use Prim.Native.String.{String}
use mathlib.Core.Path.{◌≡◌, refl}
use mathlib.Core.Option.{Option, none, some}
use mathlib.Core.List.{List, [], ◌∷◌}
use native.Mathlib.Omega.{arith}
use text.Mathlib.Text.{◌==◌}
use text.Mathlib.TextEquality.{eq_iff}
use silent_devops.Prelude.Tests.{if◌then◌else◌}

abbrev pub Dict {ℓ} : Type ℓ → Type ℓ
Dict V = List (String × V)

module _ {ℓ} {V : Type ℓ} where
  -- `v, ok := m[k]`
  unfoldable pub lookup : Dict V → String → Option V
  lookup [] k = none
  lookup ((j, v) ∷ m) k = let rest = lookup m k in if j == k then some v else rest

  -- `delete(m, k)`
  unfoldable pub remove : Dict V → String → Dict V
  remove [] k = []
  remove ((j, v) ∷ m) k = let rest = remove m k in if j == k then rest else (j, v) ∷ rest

  -- `m[k] = v`
  unfoldable pub insert : Dict V → String → V → Dict V
  insert m k v = (k, v) ∷ remove m k

  pub lookup-remove :
      (m : Dict V) (k j : String) → lookup (remove m k) j ≡ (if k == j then none else lookup m j)
  unfolding lookup remove
  lookup-remove [] k j = ground arith
  lookup-remove ((i, v) ∷ m) k j =
      ground (arith, lookup-remove m k j, eq_iff i k, eq_iff i j, eq_iff k j)

  pub lookup-insert :
      (m : Dict V) (k j : String) (v : V)
      → lookup (insert m k v) j ≡ (if k == j then some v else lookup m j)
  unfolding lookup insert
  lookup-insert m k j v = ground (arith, lookup-remove m k j)

  -- `for k, v := range m { m[k] = f(v) }`
  unfoldable pub map_values : (V → V) → Dict V → Dict V
  map_values f [] = []
  map_values f ((j, v) ∷ m) = (j, f v) ∷ map_values f m

  abbrev pub map_found : (V → V) → Option V → Option V
  map_found f none = none
  map_found f (some v) = some (f v)

  pub lookup-map_values :
      (f : V → V) (m : Dict V) (k : String) → lookup (map_values f m) k ≡ map_found f (lookup m k)
  unfolding lookup map_values
  lookup-map_values f [] k = refl
  lookup-map_values f ((j, v) ∷ m) k = ground (arith, lookup-map_values f m k)

pub ruleset dict_laws = (lookup-remove, lookup-insert, lookup-map_values)
