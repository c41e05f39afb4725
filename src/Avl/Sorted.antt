-- ===== src/Avl/Sorted.antt =====
-- Lists of entries sorted by key: what a tree stands for, with its operations on them.
use iavl.Prelude.{
  ℕ, suc, ◌≡◌, refl, List, ◌++◌, true, false, arith, [], ◌∷◌, Ordering, All, Option, none, some,
  All-append,
}
use iavl.Bytes.{Bytes, compare_bytes, lt_bytes}
use iavl.Bytes.Order.{lt_trans, gt_of_lt, lt_of_gt, eq_of_compare}
use iavl.Avl.{Tree, leaf, inner, Entry, min_key, to_list, AllKeys, ◌≺◌}

-- `v` at `x` in a list sorted by key
unfoldable pub put : Bytes → Bytes → List Entry → List Entry
put x v [] = (x, v) ∷ []
put x v ((k, w) ∷ m) = elim (compare_bytes x k) [
  | Ordering.lt ↦ (x, v) ∷ (k, w) ∷ m
  | Ordering.eq ↦ (x, v) ∷ m
  | Ordering.gt ↦ (k, w) ∷ put x v m
]

unfoldable pub find : Bytes → List Entry → Option Bytes
find x [] = none
find x ((k, w) ∷ m) = elim (compare_bytes x k) [
  | Ordering.lt ↦ none
  | Ordering.eq ↦ some w
  | Ordering.gt ↦ find x m
]

-- Where the list is cut by a key, the insertion happens on one side of the cut.
abbrev pub Below : Bytes → List Entry → Type 0
Below k = All (λ (e : Entry). e.0 ≺ k)

pub put-append_above :
    (x v : Bytes) (l r : List Entry) → Below x l → put x v (l ++ r) ≡ l ++ put x v r
unfolding put
put-append_above x v [] r h = refl
put-append_above x v ((k, w) ∷ l) r (p, h) =
    ground (arith, put-append_above x v l r h, gt_of_lt k x p)

-- What stands first in the second part is above the key.
abbrev pub StartsAbove : Bytes → List Entry → Type 0
StartsAbove x [] = ⊥
StartsAbove x ((k, w) ∷ m) = x ≺ k

pub put-append_below :
    (x v : Bytes) (l r : List Entry) → StartsAbove x r → put x v (l ++ r) ≡ put x v l ++ r
unfolding put
put-append_below x v [] [] h = absurd h
put-append_below x v [] ((k, w) ∷ r) h = ground arith
put-append_below x v ((k, w) ∷ l) r h = ground (arith, put-append_below x v l r h)

pub find-append_above : (x : Bytes) (l r : List Entry) → Below x l → find x (l ++ r) ≡ find x r
unfolding find
find-append_above x [] r h = refl
find-append_above x ((k, w) ∷ l) r (p, h) =
    ground (arith, find-append_above x l r h, gt_of_lt k x p)

pub find-append_below :
    (x : Bytes) (l r : List Entry) → StartsAbove x r → find x (l ++ r) ≡ find x l
unfolding find
find-append_below x [] [] h = absurd h
find-append_below x [] ((k, w) ∷ r) h = ground arith
find-append_below x ((k, w) ∷ l) r h = ground (arith, find-append_below x l r h)

-- without the entry at `x`
unfoldable pub delete : Bytes → List Entry → List Entry
delete x [] = []
delete x ((k, w) ∷ m) = elim (compare_bytes x k) [
  | Ordering.lt ↦ (k, w) ∷ m
  | Ordering.eq ↦ m
  | Ordering.gt ↦ (k, w) ∷ delete x m
]

pub delete-append_above :
    (x : Bytes) (l r : List Entry) → Below x l → delete x (l ++ r) ≡ l ++ delete x r
unfolding delete
delete-append_above x [] r h = refl
delete-append_above x ((k, w) ∷ l) r (p, h) =
    ground (arith, delete-append_above x l r h, gt_of_lt k x p)

pub delete-append_below :
    (x : Bytes) (l r : List Entry) → StartsAbove x r → delete x (l ++ r) ≡ delete x l ++ r
unfolding delete
delete-append_below x [] [] h = absurd h
delete-append_below x [] ((k, w) ∷ r) h = ground arith
delete-append_below x ((k, w) ∷ l) r h = ground (arith, delete-append_below x l r h)

-- the number of keys below `x`
unfoldable pub rank : Bytes → List Entry → ℕ
rank x [] = 0
rank x ((k, w) ∷ m) = elim (compare_bytes x k) [ Ordering.gt ↦ suc (rank x m) | _ ↦ 0 ]

-- The list of a tree inherits its bounds.
pub Below-to_list : (x : Bytes) (t : Tree) → AllKeys (λ y. y ≺ x) t → Below x (to_list t)
Below-to_list x (leaf k v) h = (h, tt)
Below-to_list x (inner k l r) (hl, hr) =
    All-append (λ (e : Entry). e.0 ≺ x) (to_list l) (to_list r) (Below-to_list x l hl)
      (Below-to_list x r hr)

StartsAbove-append : (x : Bytes) (l r : List Entry) → StartsAbove x l → StartsAbove x (l ++ r)
StartsAbove-append x [] r h = absurd h
StartsAbove-append x ((k, w) ∷ l) r h = h

pub StartsAbove-to_list : (x : Bytes) (t : Tree) → x ≺ min_key t → StartsAbove x (to_list t)
StartsAbove-to_list x (leaf k v) h = h
StartsAbove-to_list x (inner k l r) h =
    StartsAbove-append x (to_list l) (to_list r) (StartsAbove-to_list x l h)

-- A key below a separator is below every key from the separator on.
pub below_ge : (y k x : Bytes) → y ≺ k → lt_bytes x k ≡ false → y ≺ x
below_ge y k x h g = ground (arith, eq_of_compare x k, lt_trans y k x h, lt_of_gt x k)

pub lt_of_test : (x k : Bytes) → lt_bytes x k ≡ true → x ≺ k
lt_of_test x k h = ground arith
