-- ===== src/IteratorExamples.antt =====
-- The theorem on the iterators of the working tree at a concrete database.
use iavl.Prelude.{◌≡◌, refl, List, [], ◌∷◌, true, false, none, some, ok, ◌>>=◌, arith}
use iavl.Bytes.{Bytes}
use iavl.Bytes.Map.{load}
use iavl.Avl.{Entry}
use iavl.Avl.Sorted.{find, put}
use iavl.FastNode.{FastNode}
use iavl.MemDb.{new_batch_with_flusher}
use iavl.FastIterator.Reads.{HasFast}
use iavl.UnsavedFastIterator.{new_unsaved_fast_iterator}
use iavl.UnsavedFastIterator.Steps.{entries}
use iavl.UnsavedFastIterator.Ranges.{in_range}
use iavl.UnsavedFastIterator.Collected.{collect, collect-in_range}
use iavl.MutableTree.FastStorage.{overlay}
use iavl.StoreExamples.{sorted_tree}
use iavl.DatabaseExamples.{one, two, database, with_one, one-Fits}

with_one-HasFast : HasFast sorted_tree (database with_one) (one ∷ [])
unfolding put new_batch_with_flusher
with_one-HasFast = record { fit = (one-Fits, tt); stored = refl }

-- The first key is removed and the second one added.
abbrev working : List Entry
working = (2 ∷ [], 8 ∷ []) ∷ []

working-live :
    (k : Bytes)
    → find k working
      ≡ overlay
          (load k ((2 ∷ [], two) ∷ []))
          (load k ((1 ∷ [], true) ∷ []))
          (find k (entries (one ∷ [])))
unfolding load find
working-live k = ground arith

no_more : load {V = FastNode} (2 ∷ []) [] ≡ none
unfolding load
no_more = refl

collect-in_range_example :
    (new_unsaved_fast_iterator sorted_tree 3
        (database with_one)
        (some (1 ∷ []))
        none
        false
        ((2 ∷ [], two) ∷ [])
        ((1 ∷ [], true) ∷ [])
      >>= collect sorted_tree 3 3 (database with_one))
    ≡ ok (in_range (some (1 ∷ [])) none false working)
collect-in_range_example =
    collect-in_range sorted_tree (database with_one) ((2 ∷ [], two) ∷ []) ((1 ∷ [], true) ∷ [])
      (some (1 ∷ [])) none false (one ∷ []) working 3 with_one-HasFast (refl, no_more, tt) (tt, tt)
      working-live (omega arith)
