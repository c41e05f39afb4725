-- ===== src/Avl.antt =====
-- The reference: AVL+ trees as plain values, with the algorithms that mutable_tree.go and node.go
-- run on nodes. Heights and sizes are computed from the tree here, and not cached.
pub mod Contents
pub mod Sorted
pub mod Insert
pub mod Remove
pub mod Heights
pub mod Lookup
pub mod Sizes
pub mod Entries
use iavl.Prelude.{
  ℕ, zero, suc, ◌+◌, ◌<◌, ◌≤◌, List, [], ◌∷◌, ◌++◌, Bool, true, false, ◌≡◌, ltb, leb, if◌then◌else◌,
  max, Ordering, All, Option, none, some, get_or,
}
use iavl.Bytes.{Bytes, compare_bytes, lt_bytes, equal_bytes}

-- Values stand at the leaves; an inner node holds the least key of its right subtree.
pub data Tree : Type 0 where
  leaf : Bytes → Bytes → Tree
  inner : Bytes → Tree → Tree → Tree

abbrev pub Entry : Type 0
Entry = Bytes × Bytes

abbrev pub height : Tree → ℕ
height (leaf k v) = 0
height (inner k l r) = suc (max (height l) (height r))

abbrev pub size : Tree → ℕ
size (leaf k v) = 1
size (inner k l r) = size l + size r

abbrev pub min_key : Tree → Bytes
min_key (leaf k v) = k
min_key (inner k l r) = min_key l

abbrev pub to_list : Tree → List Entry
to_list (leaf k v) = (k, v) ∷ []
to_list (inner k l r) = to_list l ++ to_list r

abbrev pub AllKeys {ℓ} : (Bytes → Type ℓ) → Tree → Type ℓ
AllKeys P (leaf k v) = P k
AllKeys P (inner k l r) = AllKeys P l × AllKeys P r

abbrev pub ◌≺◌ : Bytes → Bytes → Type 0
◌≺◌ a b = compare_bytes a b ≡ Ordering.lt

infix 50 ◌≺◌
-- The search order, and the separators.
abbrev pub IsOrdered : Tree → Type 0
IsOrdered (leaf k v) = Unit
IsOrdered (inner k l r) = AllKeys (λ x. x ≺ k) l × (k ≡ min_key r) × IsOrdered l × IsOrdered r

abbrev pub IsBalanced : Tree → Type 0
IsBalanced (leaf k v) = Unit
IsBalanced (inner k l r) =
    (height l ≤ suc (height r)) × (height r ≤ suc (height l)) × IsBalanced l × IsBalanced r

unfoldable pub rotate_right : Tree → Tree
rotate_right (inner k (inner j a b) c) = inner j a (inner k b c)
rotate_right t = t

unfoldable pub rotate_left : Tree → Tree
rotate_left (inner k a (inner j b c)) = inner j (inner k a b) c
rotate_left t = t

-- The balance of a node, left minus right, is at least 0; or at most 0.
unfoldable pub leans_left : Tree → Bool
leans_left (leaf k v) = true
leans_left (inner k l r) = leb (height r) (height l)

unfoldable pub leans_right : Tree → Bool
leans_right (leaf k v) = true
leans_right (inner k l r) = leb (height l) (height r)

unfoldable pub balance : Bytes → Tree → Tree → Tree
balance k l r =
    if ltb (suc (height r)) (height l)
    then (if leans_left l
        then rotate_right (inner k l r)
        else rotate_right (inner k (rotate_left l) r))
    else (if ltb (suc (height l)) (height r)
        then (if leans_right r
            then rotate_left (inner k l r)
            else rotate_left (inner k l (rotate_right r)))
        else inner k l r)

-- The new tree, and whether the key was there.
unfoldable pub insert : Tree → Bytes → Bytes → Tree × Bool
insert (leaf k w) x v = elim (compare_bytes x k) [
  | Ordering.lt ↦ (inner k (leaf x v) (leaf k w), false)
  | Ordering.gt ↦ (inner x (leaf k w) (leaf x v), false)
  | Ordering.eq ↦ (leaf x v, true)
]
insert (inner k l r) x v = elim (lt_bytes x k) [
  | true ↦
      let (l', updated) = insert l x v in
      if updated then (inner k l' r, true) else (balance k l' r, false)
  | false ↦
      let (r', updated) = insert r x v in
      if updated then (inner k l r', true) else (balance k l r', false)
]

-- `gone`: the tree was the one leaf that held the key. `kept` has what is left, and the new least
-- key if it is another.
pub data Removal : Type 0 where
  absent : Removal
  gone : Bytes → Removal
  kept : Tree → Option Bytes → Bytes → Removal

-- What an inner node makes of a removal in its left subtree, and in its right one.
unfoldable pub remove_left : Bytes → Tree → Removal → Removal
remove_left k r absent = absent
remove_left k r (gone v) = kept r (some k) v
remove_left k r (kept l' new_key v) = kept (balance k l' r) new_key v

unfoldable pub remove_right : Bytes → Tree → Removal → Removal
remove_right k l absent = absent
remove_right k l (gone v) = kept l none v
remove_right k l (kept r' new_key v) = kept (balance (get_or new_key k) l r') none v

unfoldable pub remove : Tree → Bytes → Removal
remove (leaf k w) x = if equal_bytes x k then gone w else absent
remove (inner k l r) x = elim (lt_bytes x k) [
  | true ↦ remove_left k r (remove l x)
  | false ↦ remove_right k l (remove r x)
]
