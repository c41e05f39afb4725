-- ===== src/UnsavedFastIterator/Ranges.antt =====
-- unsaved_fast_iterator.go: the fast nodes in a range, as entries in the order of an iterator.
use iavl.Prelude.{
  ◌≤◌, ◌≡◌, refl, sym, ap, subst, ◌∙◌, List, [], ◌∷◌, ◌++◌, All, Bool, true, false, Option, none,
  some, is_some, if◌then◌else◌, length, length-append, arith, Bool-cases, inl, inr,
}
use mathlib.Core.List.{reverse, reverse-cons}
use iavl.Bytes.{Bytes, compare_bytes}
use iavl.Bytes.Map.{load}
use iavl.FastNode.{FastNode}
use iavl.Avl.{Entry, ◌≺◌}
use iavl.Avl.Sorted.{find}
use iavl.Avl.Entries.{IsSorted}
use iavl.Traversal.{start_or_after, before_end}
use iavl.Bytes.Order.{lt_trans, eq_of_compare}
use iavl.Traversal.Ranges.{select, in_direction, inside}
use iavl.Directions.{
  InOrder, in_direction-InOrder, select-InOrder, select-in_direction, load-select,
  load-in_direction, IsSorted-InOrder,
}
use iavl.MemDb.{BTree}
use iavl.NodeDatabase.{NodeDatabase}
use iavl.FastIterator.Reads.{HasFast, items, within, directed, is_fast}
use iavl.UnsavedFastIterator.{is_empty_range}
use iavl.UnsavedFastIterator.Merges.{merged}
use iavl.UnsavedFastIterator.Steps.{entry_of, entries}
use iavl.UnsavedFastIterator.Additions.{nodes_in_range, value_of}
use iavl.MutableTree.FastStorage.{overlay}

-- the lists of fast nodes as lists of entries
pub entries-append : (l m : List FastNode) → entries (l ++ m) ≡ entries l ++ entries m
entries-append [] m = refl
entries-append (n ∷ l) m = ap (λ k. entry_of n ∷ k) (entries-append l m)

pub entries-reverse : (l : List FastNode) → entries (reverse l) ≡ reverse (entries l)
entries-reverse [] = refl
entries-reverse (n ∷ l) =
    ap entries (reverse-cons n l)
    ∙ entries-append (reverse l) (n ∷ [])
    ∙ ap (λ k. k ++ entry_of n ∷ []) (entries-reverse l)
    ∙ sym (reverse-cons (entry_of n) (entries l))

pub entries-directed :
    (ascending : Bool) (l : List FastNode)
    → entries (directed ascending l) ≡ in_direction ascending (entries l)
entries-directed true l = refl
entries-directed false l = entries-reverse l

pub entries-within :
    (start end : Option Bytes) (l : List FastNode)
    → entries (within start end l) ≡ select (λ e. inside start end false e.0) (entries l)
entries-within start end [] = refl
entries-within start end (n ∷ l) = elim (Bool-cases (inside start end false n.key)) [
  | inl c ↦ rw c (ap (λ k. entry_of n ∷ k) (entries-within start end l))
  | inr c ↦ rw c (entries-within start end l)
]

-- the sorted entries in a range, in one of the two directions
abbrev pub in_range : Option Bytes → Option Bytes → Bool → List Entry → List Entry
in_range start end ascending l = in_direction ascending (select (λ e. inside start end false e.0) l)

pub in_range-InOrder :
    (start end : Option Bytes) (ascending : Bool) (l : List Entry)
    → IsSorted l
    → InOrder ascending (in_range start end ascending l)
in_range-InOrder start end ascending l h =
    subst (InOrder ascending) (select-in_direction ascending (λ e. inside start end false e.0) l)
      (select-InOrder ascending _ (in_direction ascending l) (in_direction-InOrder ascending l h))

pub load-in_range :
    (start end : Option Bytes) (ascending : Bool) (l : List Entry) (k : Bytes)
    → IsSorted l
    → load k (in_range start end ascending l)
      ≡ (if inside start end false k then find k l else none)
load-in_range start end ascending l k h =
    ap (load k) (sym (select-in_direction ascending (λ e. inside start end false e.0) l))
    ∙ load-select k (inside start end false) (in_direction ascending l)
    ∙ ap (λ o. if inside start end false k then o else none) (load-in_direction ascending k l h)

-- The fast nodes in the database are in the order of their keys.
pub above_items :
    (a : Bytes) (l : List FastNode)
    → All (λ e. (102 ∷ a) ≺ e.0) (items l)
    → All (λ e. a ≺ e.0) (entries l)
unfolding compare_bytes
above_items a [] h = tt
above_items a (n ∷ l) (p, h) = (p, above_items a l h)

pub items-IsSorted : (l : List FastNode) → InOrder true (items l) → IsSorted (entries l)
items-IsSorted [] h = tt
items-IsSorted (n ∷ l) (a, h) = (above_items n.key l a, items-IsSorted l h)

pub HasFast-IsSorted :
    (B : BTree) (ndb : NodeDatabase B) (fast : List FastNode)
    → HasFast B ndb fast
    → IsSorted (entries fast)
HasFast-IsSorted B ndb fast h = items-IsSorted fast (
    subst (InOrder true) h.stored (
      select-InOrder true (λ e. is_fast e.0) (B.ascend ndb.batch.db)
        (IsSorted-InOrder (B.ascend ndb.batch.db) (B.ascend-IsSorted ndb.batch.db))))

-- how many fast nodes there are at most
pub length-within :
    (start end : Option Bytes) (l : List FastNode) → length (within start end l) ≤ length l
length-within start end [] = ground arith
length-within start end (n ∷ l) = ground (arith, length-within start end l)

pub length-reverse : (l : List FastNode) → length (reverse l) ≡ length l
length-reverse [] = refl
length-reverse (n ∷ l) =
    ap length (reverse-cons n l)
    ∙ length-append (reverse l) (n ∷ [])
    ∙ ground (arith, length-reverse l)

pub length-directed :
    (ascending : Bool) (l : List FastNode) → length (directed ascending l) ≡ length l
length-directed true l = refl
length-directed false l = length-reverse l

pub length-nodes_in_range :
    (start end : Option Bytes) (m : List (Bytes × FastNode))
    → length (nodes_in_range start end m) ≤ length m
length-nodes_in_range start end [] = ground arith
length-nodes_in_range start end ((k, n) ∷ m) = ground (arith, length-nodes_in_range start end m)

pub merged-overlay :
    (a : Option FastNode) (r : Option Bool) (saved : Option Bytes)
    → merged (value_of a) (is_some r) saved ≡ overlay a r saved
merged-overlay (some n) r saved = refl
merged-overlay none (some b) saved = refl
merged-overlay none none saved = refl

pub merged-none : (b : Bool) → merged none b none ≡ none
merged-none true = refl
merged-none false = refl

pub entries-directed-within :
    (start end : Option Bytes) (ascending : Bool) (l : List FastNode)
    → entries (directed ascending (within start end l)) ≡ in_range start end ascending (entries l)
entries-directed-within start end ascending l =
    entries-directed ascending (within start end l)
    ∙ ap (in_direction ascending) (entries-within start end l)

pub outside :
    (start end : Option Bytes) (k : Bytes)
    → is_empty_range start end ≡ true
    → inside start end false k ≡ false
unfolding start_or_after before_end
outside none end k e = absurd cc
outside (some start) none k e = absurd cc
outside (some start) (some end) k e = ground (arith, lt_trans start k end, eq_of_compare start k)
