-- ===== src/StoreExamples.antt =====
-- The theorems on the cache, the database in memory and the node database at concrete values, and
-- runs of the code.
use iavl.Prelude.{
  ℕ, ◌≡◌, ◌≤◌, ◌+◌, ◌⊎◌, refl, List, [], ◌∷◌, true, false, not, ◌&&◌, none, some, ok, get_or,
  length, suc,
}
use mathlib.Core.List.{reverse}
use iavl.Bytes.{Bytes, compare_bytes, lt_bytes}
use iavl.FastNode.{FastNode}
use iavl.Avl.{Entry}
use iavl.Avl.Sorted.{find, put, delete}
use iavl.Avl.Entries.{IsSorted, put-IsSorted, delete-IsSorted}
use iavl.Traversal.Ranges.{select, in_direction, inside}
use iavl.Bytes.Map
use iavl.Cache
use iavl.Cache.Calls
use iavl.Cache.Methods
use iavl.Cache.Recency
use iavl.Cache.{LruCache, new, len}
use iavl.Cache.Calls.{
  Call, Answer, add_node, get_node, remove_node, has_node, count, a_node, a_bool, a_size, call_all,
  answers, call_all-len,
}
use iavl.MemDb.{
  BTree, Operation, op_set, op_delete, MemDbIterator, iterator, new_batch, apply_ops,
  BatchWithFlusher, new_batch_with_flusher, flusher_write,
}
use iavl.MemDb.Iterations.{collect, collect-iterator}
use iavl.MemDb.Flushing.{change_all, change_all-flusher_write}

abbrev key_of : FastNode → Bytes
key_of n = n.key

abbrev fast : ℕ → ℕ → FastNode
fast k v = record { key = k ∷ []; version_last_updated_at = 1; value = v ∷ [] }

-- Three nodes in a cache of two, where a read keeps the older one.
abbrev three_added : List (Call FastNode)
three_added =
    add_node (fast 1 7)
    ∷ add_node (fast 2 8)
    ∷ get_node (1 ∷ [])
    ∷ add_node (fast 3 9)
    ∷ has_node (2 ∷ [])
    ∷ count
    ∷ []

three_added-answers :
    answers key_of 2 three_added []
    ≡ a_node none
      ∷ a_node none
      ∷ a_node (some (fast 1 7))
      ∷ a_node (some (fast 2 8))
      ∷ a_bool false
      ∷ a_size 2
      ∷ []
unfolding answers Calls.answer_of Calls.nodes_after Methods.added Methods.touched Methods.last
    Methods.front Recency.find Recency.without compare_bytes
three_added-answers = refl

abbrev small_cache : LruCache FastNode
small_cache = record {
  dict = (1 ∷ [], 0) ∷ [];
  max_element_count = 2;
  ll = (0, fast 1 7) ∷ [];
  next_element = 1;
}

call_all-len_example : len small_cache ≤ 2
unfolding call_all Calls.call Cache.add Map.load Map.store Map.delete new
call_all-len_example =
    call_all-len key_of 2 (add_node (fast 1 7) ∷ []) (a_node none ∷ []) small_cache refl

-- The sorted list of entries as a tree of google/btree.
abbrev pub sorted_tree : BTree
sorted_tree = record {
  Items = (l : List Entry) × IsSorted l;
  empty = ([], tt);
  get_item = λ t k. find k t.0;
  replace_or_insert = λ t k v. (put k v t.0, put-IsSorted k v t.0 t.1);
  delete_item = λ t k. (delete k t.0, delete-IsSorted k t.0 t.1);
  ascend = λ t. t.0;
  descend = λ t. reverse t.0;
  ascend_greater_or_equal = λ t a. select (λ e. not (lt_bytes e.0 a)) t.0;
  ascend_range = λ t a b. select (λ e. not (lt_bytes e.0 a) && lt_bytes e.0 b) t.0;
  descend_less_or_equal = λ t b. reverse (select (λ e. not (lt_bytes b e.0)) t.0);
  ascend-empty = refl;
  ascend-IsSorted = λ t. t.1;
  get_item-ascend = λ t k. refl;
  ascend-replace_or_insert = λ t k v. refl;
  ascend-delete_item = λ t k. refl;
  descend-ascend = λ t. refl;
  ascend_greater_or_equal-ascend = λ t a. refl;
  ascend_range-ascend = λ t a b. refl;
  descend_less_or_equal-ascend = λ t b. refl;
}

abbrev changes : List Operation
changes = op_set (1 ∷ []) (7 ∷ []) ∷ op_set (2 ∷ []) (8 ∷ []) ∷ op_delete (1 ∷ []) ∷ []

-- A threshold that is exceeded by the second change.
change_all-flusher_write_example :
    (b : BatchWithFlusher sorted_tree) × (change_all sorted_tree
        (new_batch_with_flusher sorted_tree ([], tt) 103)
        changes
      ≡ ok b)
    × ((b.batch.size + 100 ≤ 103) ⊎ (length (get_or b.batch.ops []) ≤ 1))
    × (flusher_write sorted_tree b
        ≡ ok (record {
          db = apply_ops sorted_tree ([], tt) changes;
          batch = new_batch;
          flush_threshold = 103;
        }))
change_all-flusher_write_example =
    change_all-flusher_write sorted_tree ([], tt) 103 changes (refl, (refl, (refl, tt)))

two_items-IsSorted : IsSorted ((1 ∷ [], 7 ∷ []) ∷ (2 ∷ [], 8 ∷ []) ∷ [])
unfolding compare_bytes
two_items-IsSorted = ((refl, tt), (tt, tt))

abbrev two_items : (l : List Entry) × IsSorted l
two_items = ((1 ∷ [], 7 ∷ []) ∷ (2 ∷ [], 8 ∷ []) ∷ [], two_items-IsSorted)

collect-iterator_example :
    (i : MemDbIterator) × (iterator sorted_tree two_items none (some (2 ∷ [])) true ≡ ok i)
    × (collect (suc (suc (length i.ch))) i
        ≡ ok (
            in_direction
              (not true)
              (select (λ e. inside none (some (2 ∷ [])) false e.0) (two_items.0))))
collect-iterator_example = collect-iterator sorted_tree two_items none (some (2 ∷ [])) true refl
