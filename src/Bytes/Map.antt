-- ===== src/Bytes/Map.antt =====
-- Go's `sync.Map` with strings for keys, used by one goroutine: an association list.
use iavl.Prelude.{List, [], ◌∷◌, Option, none, some, ◌≡◌, if◌then◌else◌, arith}
use iavl.Bytes.{Bytes, equal_bytes}
use iavl.Bytes.Order.{eq_of_compare, compare_refl}

module _ {ℓ} {V : Type ℓ} where
  unfoldable pub load : Bytes → List (Bytes × V) → Option V
  load k [] = none
  load k ((j, v) ∷ m) = if equal_bytes k j then some v else load k m

  unfoldable pub delete : Bytes → List (Bytes × V) → List (Bytes × V)
  delete k [] = []
  delete k ((j, v) ∷ m) = let rest = delete k m in if equal_bytes k j then rest else (j, v) ∷ rest

  unfoldable pub store : Bytes → V → List (Bytes × V) → List (Bytes × V)
  store k v m = (k, v) ∷ delete k m

  pub load-delete :
      (j k : Bytes) (m : List (Bytes × V))
      → load j (delete k m) ≡ (if equal_bytes j k then none else load j m)
  unfolding load delete
  load-delete j k [] = ground arith
  load-delete j k ((i, v) ∷ m) = ground (
    arith,
    load-delete j k m,
    eq_of_compare j k,
    eq_of_compare j i,
    eq_of_compare k i,
    compare_refl j,
    compare_refl i,
  )

  pub load-store :
      (j k : Bytes) (v : V) (m : List (Bytes × V))
      → load j (store k v m) ≡ (if equal_bytes j k then some v else load j m)
  unfolding load store
  load-store j k v m = ground (arith, load-delete j k m)
