-- ===== src/Avl/Lookup.antt =====
-- Reading the list of an inner node: the key decides for one of the two parts.
use iavl.Prelude.{
  ◌+◌, ◌≤◌, ◌≡◌, refl, List, [], ◌∷◌, ◌++◌, true, false, arith, length, is_some, append_assoc,
  length-append,
}
use iavl.Bytes.{Bytes, lt_bytes}
use iavl.Bytes.Order.{gt_of_lt, compare_refl}
use iavl.Avl.{Tree, leaf, inner, Entry, size, min_key, to_list, IsOrdered}
use iavl.Avl.Sorted.{
  find, rank, find-append_above, find-append_below, Below, StartsAbove, Below-to_list,
  StartsAbove-to_list, below_ge, lt_of_test,
}
use iavl.Avl.Contents.{AllKeys-imp}

pub length-to_list : (t : Tree) → length (to_list t) ≡ size t
length-to_list (leaf k v) = refl
length-to_list (inner k l r) =
    omega (arith, length-append (to_list l) (to_list r), length-to_list l, length-to_list r)

rank-append_above :
    (x : Bytes) (l r : List Entry) → Below x l → rank x (l ++ r) ≡ length l + rank x r
unfolding rank
rank-append_above x [] r h = omega arith
rank-append_above x ((k, w) ∷ l) r (p, h) =
    ground (arith, rank-append_above x l r h, gt_of_lt k x p)

rank-append_below : (x : Bytes) (l r : List Entry) → StartsAbove x r → rank x (l ++ r) ≡ rank x l
unfolding rank
rank-append_below x [] [] h = absurd h
rank-append_below x [] ((k, w) ∷ r) h = ground arith
rank-append_below x ((k, w) ∷ l) r h = ground (arith, rank-append_below x l r h)

module _ (k : Bytes) (l r : Tree) (x : Bytes) (h : IsOrdered (inner k l r)) where
  starts : lt_bytes x k ≡ true → StartsAbove x (to_list r)
  starts a = StartsAbove-to_list x r (rw (h.1) at (lt_of_test x k a))

  below : lt_bytes x k ≡ false → Below x (to_list l)
  below a = Below-to_list x l (AllKeys-imp (λ y p. below_ge y k x p a) l h.0)

  pub find-left : lt_bytes x k ≡ true → find x (to_list (inner k l r)) ≡ find x (to_list l)
  find-left a = find-append_below x (to_list l) (to_list r) (starts a)

  pub find-right : lt_bytes x k ≡ false → find x (to_list (inner k l r)) ≡ find x (to_list r)
  find-right a = find-append_above x (to_list l) (to_list r) (below a)

  pub rank-left : lt_bytes x k ≡ true → rank x (to_list (inner k l r)) ≡ rank x (to_list l)
  rank-left a = rank-append_below x (to_list l) (to_list r) (starts a)

  pub rank-right :
      lt_bytes x k ≡ false → rank x (to_list (inner k l r)) ≡ size l + rank x (to_list r)
  rank-right a =
      omega (arith, rank-append_above x (to_list l) (to_list r) (below a), length-to_list l)

pub rank-le : (x : Bytes) (m : List Entry) → rank x m ≤ length m
unfolding rank
rank-le x [] = omega arith
rank-le x ((k, w) ∷ m) = ground (arith, rank-le x m)

-- The least key of a tree is found in its list.
pub find-min_key :
    (t : Tree) (rest : List Entry) → is_some (find (min_key t) (to_list t ++ rest)) ≡ true
find-min_key (leaf k v) rest = unfold find in ground (arith, compare_refl k)
find-min_key (inner k l r) rest =
    rw (append_assoc (to_list l) (to_list r) rest) (find-min_key l (to_list r ++ rest))
