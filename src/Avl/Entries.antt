-- ===== src/Avl/Entries.antt =====
-- The laws of sorted lists of entries: what is found after an insertion or a deletion, and how
-- ranks and positions go together.
use iavl.Prelude.{
  ℕ, zero, suc, ◌≡◌, refl, List, [], ◌∷◌, ◌++◌, false, arith, All, All-imp, All-append, none, some,
  if◌then◌else◌, get_elem?,
}
use iavl.Bytes.{Bytes, lt_bytes, equal_bytes}
use iavl.Bytes.Order.{lt_trans, gt_of_lt, lt_of_gt, eq_of_compare, compare_refl}
use iavl.Avl.{Tree, leaf, inner, Entry, to_list, ◌≺◌, IsOrdered}
use iavl.Avl.Sorted.{find, put, delete, rank, Below, below_ge}
use iavl.Avl.Remove.{AllKeys→All, AllKeys-from_min}

abbrev pub Above : Bytes → List Entry → Type 0
Above k = All (λ (e : Entry). k ≺ e.0)

abbrev pub IsSorted : List Entry → Type 0
IsSorted [] = Unit
IsSorted (e ∷ m) = Above e.0 m × IsSorted m

find-Above : (k : Bytes) (m : List Entry) → Above k m → find k m ≡ none
unfolding find
find-Above k [] h = refl
find-Above k ((j, w) ∷ m) (p, h) = ground arith

-- A new entry is found under its key, and the others as before.
pub find-put :
    (j x v : Bytes) (m : List Entry)
    → find j (put x v m) ≡ (if equal_bytes j x then some v else find j m)
unfolding find put
find-put j x v [] = ground arith
find-put j x v ((k, w) ∷ m) = ground (
  arith,
  find-put j x v m,
  eq_of_compare j x,
  eq_of_compare x k,
  eq_of_compare j k,
  lt_trans j x k,
  lt_trans j k x,
  lt_of_gt x k,
  compare_refl j,
)

-- A deleted entry is not found, and the others as before.
pub find-delete :
    (j x : Bytes) (m : List Entry)
    → IsSorted m
    → find j (delete x m) ≡ (if equal_bytes j x then none else find j m)
unfolding find delete
find-delete j x [] s = ground arith
find-delete j x ((k, w) ∷ m) (h, s) = ground (
  arith,
  find-delete j x m s,
  eq_of_compare j x,
  eq_of_compare x k,
  eq_of_compare j k,
  lt_trans j x k,
  lt_trans j k x,
  lt_of_gt x k,
  compare_refl j,
  find-Above k m h,
  find-Above j m,
  above_down k j m h,
)
  where
    above_down : (k j : Bytes) (m : List Entry) → Above k m → j ≺ k → Above j m
    above_down k j m h p = All-imp (λ (e : Entry) q. lt_trans j k e.0 p q) m h

IsSorted-append :
    (k : Bytes) (l r : List Entry)
    → IsSorted l
    → IsSorted r
    → Below k l
    → All (λ (e : Entry). lt_bytes e.0 k ≡ false) r
    → IsSorted (l ++ r)
IsSorted-append k [] r sl sr b a = sr
IsSorted-append k (e ∷ l) r (h, sl) sr (p, b) a = (
  All-append (λ (d : Entry). e.0 ≺ d.0) l r h
      (All-imp (λ (d : Entry) q. below_ge e.0 k d.0 p q) r a),
  IsSorted-append k l r sl sr b a,
)

pub IsSorted-to_list : (t : Tree) → IsOrdered t → IsSorted (to_list t)
IsSorted-to_list (leaf k v) h = (tt, tt)
IsSorted-to_list (inner k l r) (hk, e, hl, hr) =
    IsSorted-append k (to_list l) (to_list r) (IsSorted-to_list l hl) (IsSorted-to_list r hr)
      (AllKeys→All (λ y. y ≺ k) l hk)
      (AllKeys→All (λ y. lt_bytes y k ≡ false) r (rw e (AllKeys-from_min r hr)))

-- A key that is found stands at its rank.
pub get_elem?-rank :
    (x v : Bytes) (m : List Entry) → find x m ≡ some v → get_elem? m (rank x m) ≡ some (x, v)
unfolding find rank
get_elem?-rank x v [] e = cc
get_elem?-rank x v ((k, w) ∷ m) e = ground (arith, get_elem?-rank x v m, eq_of_compare x k)

Above-get_elem? :
    (k x v : Bytes) (m : List Entry) (i : ℕ) → Above k m → get_elem? m i ≡ some (x, v) → k ≺ x
Above-get_elem? k x v [] i h e = cc
Above-get_elem? k x v ((j, w) ∷ m) zero (p, h) e = ground arith
Above-get_elem? k x v ((j, w) ∷ m) (suc i) (p, h) e = Above-get_elem? k x v m i h e

-- What stands at a position has it for its rank.
pub rank-get_elem? :
    (x v : Bytes) (m : List Entry) (i : ℕ)
    → IsSorted m
    → get_elem? m i ≡ some (x, v)
    → (rank x m ≡ i) × (find x m ≡ some v)
unfolding find rank
rank-get_elem? x v [] i s e = cc
rank-get_elem? x v ((k, w) ∷ m) zero (h, s) e = ground (arith, compare_refl k)
rank-get_elem? x v ((k, w) ∷ m) (suc i) (h, s) e =
    ground (arith, rank-get_elem? x v m i s e, Above-get_elem? k x v m i h e, gt_of_lt k x)

pub delete-absent : (x : Bytes) (m : List Entry) → find x m ≡ none → delete x m ≡ m
unfolding find delete
delete-absent x [] e = refl
delete-absent x ((k, w) ∷ m) e = ground (arith, delete-absent x m)

-- Insertion and deletion keep a list sorted.
put-Above : (j k v : Bytes) (m : List Entry) → j ≺ k → Above j m → Above j (put k v m)
unfolding put
put-Above j k v [] p h = (p, tt)
put-Above j k v ((i, w) ∷ m) p (q, h) = ground (arith, put-Above j k v m p h)

Above-trans : (k i : Bytes) (m : List Entry) → k ≺ i → Above i m → Above k m
Above-trans k i m p h = All-imp (λ e r. lt_trans k i e.0 p r) m h

pub put-IsSorted : (k v : Bytes) (m : List Entry) → IsSorted m → IsSorted (put k v m)
unfolding put
put-IsSorted k v [] h = (tt, tt)
put-IsSorted k v ((i, w) ∷ m) (a, h) = ground (
  arith,
  put-Above i k v m,
  put-IsSorted k v m h,
  lt_of_gt k i,
  eq_of_compare k i,
  Above-trans k i m,
)

delete-Above : (j k : Bytes) (m : List Entry) → Above j m → Above j (delete k m)
unfolding delete
delete-Above j k [] h = tt
delete-Above j k ((i, w) ∷ m) (q, h) = ground (arith, delete-Above j k m h)

pub delete-IsSorted : (k : Bytes) (m : List Entry) → IsSorted m → IsSorted (delete k m)
unfolding delete
delete-IsSorted k [] h = tt
delete-IsSorted k ((i, w) ∷ m) (a, h) = ground (arith, delete-Above i k m a, delete-IsSorted k m h)
