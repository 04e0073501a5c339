-- ===== src/Prelude/Sizes.antt =====
-- How many entries a map has, before and after a write.
use Prim.Native.Nat.{suc}
use mathlib.Core.Path.{◌≡◌}
use mathlib.Core.Bool.{true, false}
use mathlib.Core.List.{List, [], ◌∷◌}
use native.Mathlib.Omega.{arith}
use whaticket_community.Prelude.Tests.{Keyed, ◌==◌, if◌then◌else◌}
use whaticket_community.Prelude.Lists.{length, is_some}
use whaticket_community.Prelude.Keys.{has, lookup, insert, delete, keys, Distinct}

module _ {ℓ κ} {K : Type ℓ} {V : Type κ} ⦃e : Keyed K⦄ where
  pub has-keys : (k : K) (m : List (K × V)) → has k (keys m) ≡ is_some (lookup k m)
  unfolding has lookup
  has-keys k [] = ground arith
  has-keys k ((j, v) ∷ m) = ground (arith, has-keys k m)

  has-keys-insert :
      (j k : K) (v : V) (m : List (K × V))
      → has j (keys (insert k v m)) ≡ (if k == j then true else has j (keys m))
  unfolding has insert
  has-keys-insert j k v [] = ground arith
  has-keys-insert j k v ((i, w) ∷ m) =
      ground (arith, e.same_iff k j, e.same_iff i k, e.same_iff i j, has-keys-insert j k v m)

  has-keys-delete :
      (j k : K) (m : List (K × V))
      → has j (keys (delete k m)) ≡ (if k == j then false else has j (keys m))
  unfolding has delete
  has-keys-delete j k [] = ground arith
  has-keys-delete j k ((i, w) ∷ m) =
      ground (arith, e.same_iff k j, e.same_iff i k, e.same_iff i j, has-keys-delete j k m)

  pub insert-Distinct :
      (k : K) (v : V) (m : List (K × V)) → Distinct (keys m) → Distinct (keys (insert k v m))
  unfolding insert has
  insert-Distinct k v [] d = ground arith
  insert-Distinct k v ((i, w) ∷ m) d =
      ground
        (arith, e.same_iff i k, e.same_iff k i, has-keys-insert i k v m, insert-Distinct k v m d.1)

  pub delete-Distinct :
      (k : K) (m : List (K × V)) → Distinct (keys m) → Distinct (keys (delete k m))
  unfolding delete
  delete-Distinct k [] d = tt
  delete-Distinct k ((i, w) ∷ m) d =
      ground (arith, has-keys-delete i k m, e.same_iff k i, delete-Distinct k m d.1)

  pub length-insert :
      (k : K) (v : V) (m : List (K × V))
      → length (insert k v m) ≡ (if is_some (lookup k m) then length m else suc (length m))
  unfolding insert lookup
  length-insert k v [] = ground arith
  length-insert k v ((i, w) ∷ m) = ground (arith, length-insert k v m)

  delete_absent :
      (k : K) (m : List (K × V)) → has k (keys m) ≡ false → length (delete k m) ≡ length m
  unfolding delete has
  delete_absent k [] h = ground arith
  delete_absent k ((i, w) ∷ m) h = ground (arith, delete_absent k m)

  pub length-delete :
      (k : K) (m : List (K × V))
      → Distinct (keys m)
      → (if is_some (lookup k m) then suc (length (delete k m)) else length (delete k m)) ≡ length m
  unfolding delete lookup
  length-delete k [] d = ground arith
  length-delete k ((i, w) ∷ m) d =
      ground (arith, e.same_iff i k, delete_absent k m, length-delete k m d.1)
