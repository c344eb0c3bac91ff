-- ===== src/Prelude/Assoc.antt =====
-- Go's maps as association lists. The order of entries is the iteration order, which the language
-- leaves open; a key is written here its place, or here the end.
use mathlib.Core.Path.{◌≡◌, refl}
use mathlib.Core.Option.{Option, none, some}
use mathlib.Core.Bool.{true}
use mathlib.Core.List.{List, [], ◌∷◌}
use Prim.Native.String.{String}
use native.Mathlib.Omega.{arith}
use Prim.Native.Nat.{◌+◌, ◌≤◌}
use vai_gateway.Prelude.Tests.{Comparable, ◌==◌, if◌then◌else◌}
use vai_gateway.Prelude.Lists.{length}

abbrev pub Map {ℓ κ} : Type ℓ → Type κ → Type (ℓ ⊔ κ)
Map K V = List (K × V)

abbrev pub Assoc {ℓ} : Type ℓ → Type ℓ
Assoc V = Map String V

pub same_refl {ℓ} : {K : Type ℓ} ⦃e : Comparable K⦄ (k : K) → (k == k) ≡ true
same_refl ⦃e⦄ k = (e.same_iff k k).1 refl

module _ {ℓ κ} {K : Type ℓ} {V : Type κ} ⦃e : Comparable K⦄ where
  unfoldable pub lookup : (key : K) → Map K V → Option V
  lookup key [] = none
  lookup key ((here, x) ∷ rest) =
      let later = lookup key rest in if here == key then some x else later

  unfoldable pub insert : (key : K) → V → Map K V → Map K V
  insert key x [] = (key, x) ∷ []
  insert key x ((here, y) ∷ rest) =
      let later = insert key x rest in if here == key then (here, x) ∷ rest else (here, y) ∷ later

  unfoldable pub remove : K → Map K V → Map K V
  remove k [] = []
  remove k ((j, v) ∷ m) = let rest = remove k m in if j == k then rest else (j, v) ∷ rest

  pub lookup-insert :
      (key other : K) (x : V) (m : Map K V)
      → lookup other (insert key x m) ≡ (if key == other then some x else lookup other m)
  unfolding lookup insert
  lookup-insert key other x [] = refl
  lookup-insert key other x ((here, y) ∷ rest) = ground (
    arith,
    lookup-insert key other x rest,
    e.same_iff here key,
    e.same_iff here other,
    e.same_iff key other,
  )

  pub lookup-insert_self : (k : K) (v : V) (m : Map K V) → lookup k (insert k v m) ≡ some v
  lookup-insert_self k v m = rw (lookup-insert, same_refl)

  pub lookup-remove :
      (k j : K) (m : Map K V) → lookup j (remove k m) ≡ (if k == j then none else lookup j m)
  unfolding lookup remove
  lookup-remove k j [] = ground arith
  lookup-remove k j ((i, v) ∷ m) =
      ground (arith, lookup-remove k j m, e.same_iff i k, e.same_iff i j, e.same_iff k j)

  pub length-insert-le : (k : K) (v : V) (m : Map K V) → length (insert k v m) ≤ length m + 1
  unfolding insert
  length-insert-le k v [] = omega arith
  length-insert-le k v ((i, w) ∷ m) = ground (arith, length-insert-le k v m)

  pub length-remove-le : (k : K) (m : Map K V) → length (remove k m) ≤ length m
  unfolding remove
  length-remove-le k [] = omega arith
  length-remove-le k ((i, w) ∷ m) = ground (arith, length-remove-le k m)

pub ruleset assoc_laws = (lookup-insert_self, lookup-insert, lookup-remove)
