-- ===== src/Prelude/Keys.antt =====
-- Go's `map[K]struct{}` and `map[K]V`, as lists of keys and of entries.
use mathlib.Core.Path.{◌≡◌, refl}
use mathlib.Core.Bool.{Bool, false, ◌||◌, ◌&&◌, not}
use mathlib.Core.List.{List, [], ◌∷◌}
use mathlib.Core.Option.{Option, none, some}
use native.Mathlib.Omega.{arith}
use whaticket_community.Prelude.Tests.{Keyed, ◌==◌, if◌then◌else◌}

module _ {ℓ} {K : Type ℓ} ⦃e : Keyed K⦄ where
  unfoldable pub has : K → List K → Bool
  has k [] = false
  has k (x ∷ xs) = x == k || has k xs

  unfoldable pub add : K → List K → List K
  unfolding has
  add k xs = if has k xs then xs else k ∷ xs

  unfoldable pub remove : K → List K → List K
  remove k [] = []
  remove k (x ∷ xs) = let rest = remove k xs in if x == k then rest else x ∷ rest

  pub has-add : (j k : K) (xs : List K) → has j (add k xs) ≡ (k == j || has j xs)
  unfolding add has
  has-add j k xs = ground (arith, e.same_iff k j)

  pub has-remove : (j k : K) (xs : List K) → has j (remove k xs) ≡ (not (k == j) && has j xs)
  unfolding has remove
  has-remove j k [] = ground arith
  has-remove j k (x ∷ xs) =
      ground (arith, e.same_iff k j, e.same_iff x k, e.same_iff x j, has-remove j k xs)

  -- No key stands twice.
  abbrev pub Distinct : List K → Type 0
  Distinct [] = Unit
  Distinct (x ∷ xs) = (has x xs ≡ false) × Distinct xs

  pub add-Distinct : (k : K) (xs : List K) → Distinct xs → Distinct (add k xs)
  unfolding add
  add-Distinct k xs d = ground arith

  pub remove-Distinct : (k : K) (xs : List K) → Distinct xs → Distinct (remove k xs)
  unfolding remove
  remove-Distinct k [] d = tt
  remove-Distinct k (x ∷ xs) d = ground (arith, has-remove x k xs, remove-Distinct k xs d.1)

  pub has-eq-nil : (xs : List K) → ((k : K) → has k xs ≡ false) → xs ≡ []
  unfolding has
  has-eq-nil [] h = refl
  has-eq-nil (x ∷ xs) h = ground (arith, h x, e.same_iff x x)

module _ {ℓ κ} {K : Type ℓ} {V : Type κ} ⦃e : Keyed K⦄ where
  -- The first entry of a key counts.
  unfoldable pub lookup : K → List (K × V) → Option V
  lookup key [] = none
  lookup key (entry ∷ rest) = if entry.0 == key then some entry.1 else lookup key rest

  unfoldable pub insert : K → V → List (K × V) → List (K × V)
  insert key value [] = (key, value) ∷ []
  insert key value (entry ∷ rest) =
      if entry.0 == key then (key, value) ∷ rest else entry ∷ insert key value rest

  unfoldable pub delete : K → List (K × V) → List (K × V)
  delete k [] = []
  delete k ((j, v) ∷ m) = let rest = delete k m in if j == k then rest else (j, v) ∷ rest

  pub lookup-insert :
      (j k : K) (v : V) (m : List (K × V))
      → lookup j (insert k v m) ≡ (if k == j then some v else lookup j m)
  unfolding lookup insert
  lookup-insert j k v [] = refl
  lookup-insert j k v ((i, w) ∷ m) =
      ground (arith, e.same_iff k j, e.same_iff i k, e.same_iff i j, lookup-insert j k v m)

  pub lookup-delete :
      (j k : K) (m : List (K × V)) → lookup j (delete k m) ≡ (if k == j then none else lookup j m)
  unfolding lookup delete
  lookup-delete j k [] = ground arith
  lookup-delete j k ((i, w) ∷ m) =
      ground (arith, e.same_iff k j, e.same_iff i k, e.same_iff i j, lookup-delete j k m)

  -- The keys of a map, in the order of its entries.
  abbrev pub keys : List (K × V) → List K
  keys [] = []
  keys ((k, v) ∷ m) = k ∷ keys m
