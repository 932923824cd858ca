-- ===== src/Base/GoMap.antt =====
-- Go's `map[K]V` as an association list. The order of the list is an order in which `range` may
-- visit the entries; the language fixes none, so the theorems hold of every list.
use mathlib.Core.Path.{◌≡◌, refl}
use mathlib.Core.Option.{Option, none, some}
use mathlib.Core.List.{List, [], ◌∷◌}
use native.Mathlib.Omega.{arith}
use utxo_block_emulator.Base.Tests.{if◌then◌else◌}
use utxo_block_emulator.Base.Eq.{Eq, ◌==◌}

abbrev pub GoMap {ℓ κ} : Type ℓ → Type κ → Type (ℓ ⊔ κ)
GoMap K V = List (K × V)

module _ {ℓ κ} {K : Type ℓ} {V : Type κ} ⦃e : Eq K⦄ where
  -- `v, ok := m[k]`
  unfoldable pub lookup : K → GoMap K V → Option V
  lookup key [] = none
  lookup key ((k, val) ∷ rest) = if k == key then some val else lookup key rest

  -- `m[k]`, with the zero value for a missing key
  unfoldable pub get_or : K → V → GoMap K V → V
  unfolding lookup
  get_or k d m = elim (lookup k m) [ none ↦ d | some v ↦ v ]

  -- `m[k] = v`
  unfoldable pub insert : K → V → GoMap K V → GoMap K V
  insert key new [] = (key, new) ∷ []
  insert key new ((k, old) ∷ rest) =
      if k == key then (key, new) ∷ rest else (k, old) ∷ insert key new rest

  -- `delete(m, k)`
  unfoldable pub delete : K → GoMap K V → GoMap K V
  delete k [] = []
  delete k ((j, v) ∷ m) = let rest = delete k m in if j == k then rest else (j, v) ∷ rest

  pub lookup-insert :
      (k j : K) (v : V) (m : GoMap K V)
      → lookup j (insert k v m) ≡ (if k == j then some v else lookup j m)
  unfolding lookup insert
  lookup-insert k j v ((i, w) ∷ m) =
      ground (arith, lookup-insert k j v m, e.beq_iff k j, e.beq_iff i j, e.beq_iff i k)
  lookup-insert k j v [] = refl

  pub lookup-delete :
      (k j : K) (m : GoMap K V) → lookup j (delete k m) ≡ (if k == j then none else lookup j m)
  unfolding lookup delete
  lookup-delete k j [] = ground arith
  lookup-delete k j ((i, w) ∷ m) =
      ground (arith, e.beq_iff k j, e.beq_iff i k, e.beq_iff i j, lookup-delete k j m)

  pub lookup-insert_self : (k : K) (v : V) (m : GoMap K V) → lookup k (insert k v m) ≡ some v
  lookup-insert_self k v m = ground (arith, lookup-insert k k v m, e.beq_iff k k)
