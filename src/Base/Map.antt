-- ===== src/Base/Map.antt =====
-- Go's maps as association lists: one entry for each key, in the order of first insertion.
-- The program never relies on the order of a map, and `lookup` does not show it.
use Prim.Native.Nat.{◌+◌, ◌≤◌, ◌<◌}
use mathlib.Core.Path.{◌≡◌, refl}
use mathlib.Core.Bool.{true}
use mathlib.Core.List.{List, [], ◌∷◌}
use mathlib.Core.Option.{Option, none, some}
use native.Mathlib.Omega.{arith}
use microvm_terminal.Base.Tests.{Comparable, ◌==◌, if◌then◌else◌}
use microvm_terminal.Base.Lists.{length}

abbrev pub GoMap {ℓ κ} : Type ℓ → Type κ → Type (ℓ ⊔ κ)
GoMap K V = List (K × V)

module _ {ℓ κ} {K : Type ℓ} {V : Type κ} ⦃e : Comparable K⦄ where
  unfoldable pub lookup : K → GoMap K V → Option V
  lookup k [] = none
  lookup k ((key, val) ∷ more) = if key == k then some val else lookup k more

  unfoldable pub insert : K → V → GoMap K V → GoMap K V
  insert k v [] = (k, v) ∷ []
  insert k v ((key, val) ∷ more) = if key == k then (k, v) ∷ more else (key, val) ∷ insert k v more

  unfoldable pub delete : K → GoMap K V → GoMap K V
  delete k [] = []
  delete k ((j, w) ∷ m) = let rest = delete k m in if j == k then rest else (j, w) ∷ rest

  pub lookup-insert :
      (at other : K) (val : V) (m : GoMap K V)
      → lookup other (insert at val m) ≡ (if at == other then some val else lookup other m)
  unfolding lookup insert
  lookup-insert at other val [] = refl
  lookup-insert at other val ((key, old) ∷ more) = ground (
    arith,
    e.agrees at other,
    e.agrees key at,
    e.agrees key other,
    lookup-insert at other val more,
  )

  pub lookup-delete :
      (k j : K) (m : GoMap K V) → lookup j (delete k m) ≡ (if k == j then none else lookup j m)
  unfolding lookup delete
  lookup-delete k j [] = ground arith
  lookup-delete k j ((i, w) ∷ m) =
      ground (arith, e.agrees k j, e.agrees i k, e.agrees i j, lookup-delete k j m)

  pub length-delete-le : (k : K) (m : GoMap K V) → length (delete k m) ≤ length m
  unfolding delete
  length-delete-le k [] = omega arith
  length-delete-le k ((i, w) ∷ m) = ground (arith, length-delete-le k m)

  pub length-delete-lt :
      (k : K) (m : GoMap K V) (v : V) → lookup k m ≡ some v → length (delete k m) < length m
  unfolding lookup delete
  length-delete-lt k [] v h = absurd (ground arith)
  length-delete-lt k ((i, w) ∷ m) v h = ground (arith, length-delete-le k m, length-delete-lt k m v)

  pub length-insert-le : (k : K) (v : V) (m : GoMap K V) → length (insert k v m) ≤ length m + 1
  unfolding insert
  length-insert-le k v [] = omega arith
  length-insert-le k v ((i, w) ∷ m) = ground (arith, length-insert-le k v m)

  -- The later of two values for a key stays.
  pub insert-insert :
      (at : K) (old new : V) (m : GoMap K V) → insert at new (insert at old m) ≡ insert at new m
  unfolding insert
  insert-insert at old new [] = ground (arith, e.agrees at at)
  insert-insert at old new ((key, val) ∷ more) =
      ground (arith, e.agrees at at, e.agrees key at, insert-insert at old new more)

  pub length-insert_new :
      (k : K) (v : V) (m : GoMap K V) → lookup k m ≡ none → length (insert k v m) ≡ length m + 1
  unfolding lookup insert
  length-insert_new k v [] h = omega arith
  length-insert_new k v ((i, w) ∷ m) h = ground (arith, length-insert_new k v m)

pub ==_self {ℓ} : {K : Type ℓ} ⦃e : Comparable K⦄ (k : K) → (k == k) ≡ true
==_self ⦃e⦄ k = (e.agrees k k).1 refl

pub ruleset map_laws = (lookup-insert, lookup-delete)
