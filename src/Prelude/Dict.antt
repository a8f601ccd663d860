-- ===== src/Prelude/Dict.antt =====
-- Go's `map[string]V`, as an association list without repeated keys.
use Prim.Native.String.{String}
use mathlib.Core.Path.{◌≡◌, refl}
use mathlib.Core.Logic.{◌≢◌}
use mathlib.Core.List.{List, [], ◌∷◌}
use mathlib.Core.Option.{Option, none, some}
use native.Mathlib.Omega.{arith}
use text.Mathlib.TextEquality.{eq_iff}
use real_api_server.Prelude.Tests.{◌==◌, string_eq, if◌then◌else◌}
use real_api_server.Prelude.Lists.{All}

abbrev pub Dict {ℓ} : Type ℓ → Type ℓ
Dict V = List (String × V)

module _ {ℓ} {V : Type ℓ} where
  -- m[k] = v
  unfoldable pub insert : String → V → Dict V → Dict V
  insert k v [] = (k, v) ∷ []
  insert k v (entry ∷ others) =
      let rest = insert k v others in if entry.0 == k then (k, v) ∷ others else entry ∷ rest

  -- v, ok := m[k]
  unfoldable pub lookup : String → Dict V → Option V
  lookup k [] = none
  lookup k (entry ∷ others) =
      let later = lookup k others in if entry.0 == k then some entry.1 else later

  -- delete(m, k)
  unfoldable pub delete : String → Dict V → Dict V
  delete k [] = []
  delete k ((j, w) ∷ m) = let rest = delete k m in if j == k then rest else (j, w) ∷ rest

  pub lookup-insert :
      (new asked : String) (v : V) (m : Dict V)
      → lookup asked (insert new v m) ≡ (if new == asked then some v else lookup asked m)
  unfolding lookup insert
  lookup-insert new asked v [] = refl
  lookup-insert new asked v (entry ∷ others) = ground (
    lookup-insert new asked v others,
    eq_iff entry.0 asked,
    eq_iff entry.0 new,
    eq_iff new asked,
    arith,
  )

  pub lookup-delete :
      (k j : String) (m : Dict V) → lookup j (delete k m) ≡ (if k == j then none else lookup j m)
  unfolding lookup delete
  lookup-delete k j [] = ground arith
  lookup-delete k j ((i, w) ∷ m) =
      ground (arith, lookup-delete k j m, eq_iff i k, eq_iff i j, eq_iff k j)

  -- No key stands twice.
  abbrev pub Distinct : Dict V → Type 0
  Distinct [] = Unit
  Distinct ((k, v) ∷ m) = All (λ (e : String × V). e.0 ≢ k) m × Distinct m
