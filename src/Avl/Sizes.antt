-- ===== src/Avl/Sizes.antt =====
-- Sizes under rebalancing, insertion and removal.
use iavl.Prelude.{
  suc, ◌+◌, ◌≡◌, refl, ap, Bool-cases, inl, inr, arith, if◌then◌else◌, length, length-append,
  get_or,
}
use iavl.Bytes.{Bytes, lt_bytes, equal_bytes}
use iavl.Avl.{
  Tree, leaf, inner, size, to_list, balance, insert, Removal, absent, gone, kept, remove,
  remove_left, remove_right,
}
use iavl.Avl.Contents.{to_list-balance}
use iavl.Avl.Lookup.{length-to_list}

pub size-balance : (k : Bytes) (l r : Tree) → size (balance k l r) ≡ size l + size r
size-balance k l r = omega (
  arith,
  length-to_list (balance k l r),
  ap length (to_list-balance k l r),
  length-append (to_list l) (to_list r),
  length-to_list l,
  length-to_list r,
)

-- An update keeps the size, an insertion adds one.
pub size-insert :
    (t : Tree) (x v : Bytes)
    → size (insert t x v).0 ≡ (if (insert t x v).1 then size t else suc (size t))
unfolding insert
size-insert (leaf k w) x v = ground arith
size-insert (inner k l r) x v = ground (
  arith,
  size-insert l x v,
  size-insert r x v,
  size-balance k (insert l x v).0 r,
  size-balance k l (insert r x v).0,
)

abbrev pub SmallerBy : Tree → Removal → Type 0
SmallerBy t absent = Unit
SmallerBy t (gone v) = size t ≡ 1
SmallerBy t (kept t' new_key v) = size t ≡ suc (size t')

smaller_left :
    (k : Bytes) (l r : Tree) (res : Removal)
    → SmallerBy l res
    → SmallerBy (inner k l r) (remove_left k r res)
unfolding remove_left
smaller_left k l r absent h = tt
smaller_left k l r (gone v) h = omega arith
smaller_left k l r (kept l' new_key v) h = omega (arith, size-balance k l' r)

smaller_right :
    (k : Bytes) (l r : Tree) (res : Removal)
    → SmallerBy r res
    → SmallerBy (inner k l r) (remove_right k l res)
unfolding remove_right
smaller_right k l r absent h = tt
smaller_right k l r (gone v) h = omega arith
smaller_right k l r (kept r' new_key v) h = omega (arith, size-balance (get_or new_key k) l r')

-- A removal takes one leaf away.
pub size-remove : (t : Tree) (x : Bytes) → SmallerBy t (remove t x)
unfolding remove
size-remove (leaf k w) x = elim (Bool-cases (equal_bytes x k)) [
  | inl a ↦ rw a refl
  | inr a ↦ rw a tt
]
size-remove (inner k l r) x = elim (Bool-cases (lt_bytes x k)) [
  | inl a ↦ rw (a, remove) (smaller_left k l r (remove l x) (size-remove l x))
  | inr a ↦ rw (a, remove) (smaller_right k l r (remove r x) (size-remove r x))
]
