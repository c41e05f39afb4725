-- ===== src/Examples.antt =====
-- The theorems at concrete trees, bytes and sessions, and runs of the code.
use iavl.Prelude.{
  ℕ, ◌*◌, ◌^◌, ◌<◌, ◌≤◌, ◌≡◌, ◌↔◌, refl, List, [], ◌∷◌, true, false, none, some, is_some,
  if◌then◌else◌, ok, err, Error, arith, length, Ordering,
}
use iavl.Bytes.{Bytes, compare_bytes, equal_bytes}
use iavl.Bytes.Order.{eq_of_compare}
use iavl.Bytes.Map.{load}
use iavl.Avl.{leaf, inner, Entry}
use iavl.Avl.Sorted.{find, put, delete, rank}
use iavl.Node.{Node, nil, NodeDb, new_node}
use iavl.Node.Represents.{at_inner, child-Represents, new_node-Represents}
use iavl.Node.Reads.{entry_at}
use iavl.ImmutableTree.{
  ImmutableTree, tree_size, tree_height, tree_has, get_with_index, tree_get_by_index,
}
use iavl.ImmutableTree.Reads.{
  Holds, holds_tree, get_with_index-Holds, tree_has-Holds, tree_get_by_index-Holds, index_iff,
  tree_size-Holds,
}
use iavl.MutableTree.{MutableTree, new_inner, set, remove, set_root, mutable_get, rollback}
use iavl.MutableTree.Insertion.{note_addition}
use iavl.MutableTree.Contract.{set-Holds, remove-Holds, note_removal}
use iavl.MutableTree.FastStorage.{Agrees, Consistent, mutable_get-Consistent}
use iavl.Traversal.{iterate_range}
use iavl.Traversal.Ranges.{inside, select, in_direction}
use iavl.Traversal.Iterations.{calls, leaf_entries, iterate_range-Holds}
use iavl.MutableTree.Session.{
  Change, write, erase, IsWorking, apply_all, changed_all, apply_all-IsWorking,
}
use iavl.MutableTree.Rollback.{just_saved, rollback-IsWorking}

-- A database that has no node, and one fast node, for the key 1.
abbrev small_db : NodeDb
small_db = record {
  get_node = λ key. err Error.node_missing;
  get_fast_node = λ key.
      if equal_bytes key (1 ∷ [])
      then ok (some (record { key = 1 ∷ []; version_last_updated_at = 4; value = 7 ∷ [] }))
      else ok none;
  latest_version = 5;
}

abbrev two_keys : List Entry
two_keys = (1 ∷ [], 7 ∷ []) ∷ (3 ∷ [], 8 ∷ []) ∷ []

abbrev two_leaves : Node
two_leaves = new_inner (3 ∷ []) (new_node (1 ∷ []) (7 ∷ [])) (new_node (3 ∷ []) (8 ∷ []))

abbrev working : MutableTree
working = record {
  immutable = record { root = two_leaves; version = 5; skip_fast_storage_upgrade = false };
  last_saved = record { root = nil; version = 5; skip_fast_storage_upgrade = false };
  unsaved_fast_node_additions =
      (3 ∷ [], record { key = 3 ∷ []; version_last_updated_at = 6; value = 8 ∷ [] }) ∷ [];
  unsaved_fast_node_removals = [];
  skip_fast_storage_upgrade = false;
}

two_leaves-Holds : Holds small_db two_leaves two_keys
unfolding compare_bytes
two_leaves-Holds =
    holds_tree (inner (3 ∷ []) (leaf (1 ∷ []) (7 ∷ [])) (leaf (3 ∷ []) (8 ∷ [])))
      (at_inner refl refl refl (λ _. refl) (λ _. refl)
        (child-Represents small_db (leaf (1 ∷ []) (7 ∷ [])) (new_node (1 ∷ []) (7 ∷ [])) none
          (new_node-Represents small_db (1 ∷ []) (7 ∷ [])))
        (child-Represents small_db (leaf (3 ∷ []) (8 ∷ [])) (new_node (3 ∷ []) (8 ∷ [])) none
          (new_node-Represents small_db (3 ∷ []) (8 ∷ [])))
        (new_node-Represents small_db (1 ∷ []) (7 ∷ []))
        (new_node-Represents small_db (3 ∷ []) (8 ∷ [])))
      (refl, refl, tt, tt) (omega arith, omega arith, tt, tt) (omega arith) refl

three_above :
    (k : Bytes) → compare_bytes k (3 ∷ []) ≡ Ordering.eq → compare_bytes k (1 ∷ []) ≡ Ordering.gt
unfolding compare_bytes
three_above k e = rw (eq_of_compare k (3 ∷ []) e) refl

working-Consistent : Consistent small_db working two_keys
unfolding find load
working-Consistent = record {
  saved = (1 ∷ [], 7 ∷ []) ∷ [];
  same_mode = refl;
  agrees = λ k. ground arith;
  live = λ fast k. ground (arith, three_above k);
}

set-Holds_example :
    (root : Node) × (set small_db working (2 ∷ []) (some (9 ∷ []))
      ≡ ok (
        is_some (find (2 ∷ []) two_keys),
        set_root (note_addition working (2 ∷ []) (9 ∷ [])) root,
      ))
    × Holds small_db root (put (2 ∷ []) (9 ∷ []) two_keys)
set-Holds_example =
    set-Holds small_db working two_keys (2 ∷ []) (9 ∷ []) two_leaves-Holds (omega arith)

remove-Holds_example :
    (root : Node) × (remove small_db working (1 ∷ [])
      ≡ ok (
        find (1 ∷ []) two_keys,
        is_some (find (1 ∷ []) two_keys),
        (if is_some (find (1 ∷ []) two_keys)
            then set_root (note_removal working (1 ∷ [])) root
            else working),
      ))
    × Holds small_db root (delete (1 ∷ []) two_keys)
remove-Holds_example = remove-Holds small_db working two_keys (1 ∷ []) two_leaves-Holds

mutable_get-Consistent_example : mutable_get small_db working (3 ∷ []) ≡ ok (find (3 ∷ []) two_keys)
mutable_get-Consistent_example =
    mutable_get-Consistent small_db working two_keys (3 ∷ []) two_leaves-Holds working-Consistent

abbrev changes : List Change
changes = write (2 ∷ []) (9 ∷ []) ∷ erase (1 ∷ []) ∷ write (4 ∷ []) [] ∷ []

working-IsWorking : IsWorking small_db working two_keys
working-IsWorking = record { holds = two_leaves-Holds; fast = working-Consistent }

apply_all-IsWorking_example :
    (tree' : MutableTree) × (apply_all small_db changes working ≡ ok tree')
    × IsWorking small_db tree' (changed_all changes two_keys)
    × ((key : Bytes)
        → mutable_get small_db tree' key ≡ ok (find key (changed_all changes two_keys)))
apply_all-IsWorking_example =
    apply_all-IsWorking small_db changes working two_keys working-IsWorking (omega arith)

get_with_index-Holds_example :
    get_with_index small_db working.immutable (3 ∷ [])
    ≡ ok (rank (3 ∷ []) two_keys, find (3 ∷ []) two_keys)
get_with_index-Holds_example =
    get_with_index-Holds small_db working.immutable two_keys (3 ∷ []) two_leaves-Holds

index_iff_example :
    (get_with_index small_db working.immutable (3 ∷ []) ≡ ok (1, some (8 ∷ [])))
    ↔ (tree_get_by_index small_db working.immutable 1 ≡ ok (some (3 ∷ [], some (8 ∷ []))))
index_iff_example =
    index_iff small_db working.immutable two_keys (3 ∷ []) (8 ∷ []) 1 two_leaves-Holds (omega arith)

tree_get_by_index-Holds_example :
    tree_get_by_index small_db working.immutable 1 ≡ ok (entry_at two_keys 1)
tree_get_by_index-Holds_example =
    tree_get_by_index-Holds small_db working.immutable two_keys 1 two_leaves-Holds (omega arith)

tree_has-Holds_example :
    tree_has small_db working.immutable (3 ∷ []) ≡ ok (is_some (find (3 ∷ []) two_keys))
tree_has-Holds_example =
    tree_has-Holds small_db working.immutable two_keys (3 ∷ []) two_leaves-Holds

tree_size-Holds_example :
    (tree_size working.immutable ≡ length two_keys)
    × ((k : ℕ) → length two_keys < 2 ^ k → tree_height working.immutable ≤ 2 * k)
tree_size-Holds_example = tree_size-Holds small_db working.immutable two_keys two_leaves-Holds

iterate_range-Holds_example :
    (visited : List Node) × (iterate_range small_db 5 working.immutable
        (some (2 ∷ []))
        none
        false
        (λ key value. true)
      ≡ ok (
        visited,
        (calls
            (λ key value. true)
            (in_direction false (select (λ e. inside (some (2 ∷ [])) none false e.0) two_keys))).1,
      ))
    × (leaf_entries visited
        ≡ (calls
            (λ key value. true)
            (in_direction false (select (λ e. inside (some (2 ∷ [])) none false e.0) two_keys))).0)
iterate_range-Holds_example =
    iterate_range-Holds small_db working.immutable two_keys (some (2 ∷ [])) none false
      (λ key value. true) 5 two_leaves-Holds (omega arith)

-- A working tree that was just saved at version 5, with the one entry that has a fast node.
abbrev saved_leaf : ImmutableTree
saved_leaf = record {
  root = new_node (1 ∷ []) (7 ∷ []);
  version = 5;
  skip_fast_storage_upgrade = false;
}

abbrev fresh : MutableTree
fresh = record {
  immutable = saved_leaf;
  last_saved = saved_leaf;
  unsaved_fast_node_additions = [];
  unsaved_fast_node_removals = [];
  skip_fast_storage_upgrade = false;
}

abbrev one_key : List Entry
one_key = (1 ∷ [], 7 ∷ []) ∷ []

fresh-Agrees :
    (k : Bytes) → Agrees 5 small_db.latest_version (find k one_key) (small_db.get_fast_node k)
unfolding find
fresh-Agrees k = ground arith

fresh-IsWorking : IsWorking small_db fresh one_key
unfolding load
fresh-IsWorking = record {
  holds =
      holds_tree (leaf (1 ∷ []) (7 ∷ [])) (new_node-Represents small_db (1 ∷ []) (7 ∷ [])) tt tt
        (omega arith) refl;
  fast = record { saved = one_key; same_mode = refl; agrees = fresh-Agrees; live = λ fast k. refl };
}

abbrev dropped : List Change
dropped = write (3 ∷ []) (8 ∷ []) ∷ erase (1 ∷ []) ∷ []

rollback-IsWorking_example :
    (after : MutableTree) × (apply_all small_db dropped fresh ≡ ok after)
    × ((rollback after).immutable ≡ saved_leaf)
    × IsWorking small_db (rollback after) one_key
    × ((key : Bytes) → mutable_get small_db (rollback after) key ≡ ok (find key one_key))
rollback-IsWorking_example =
    rollback-IsWorking small_db dropped fresh one_key fresh-IsWorking
      (just_saved (omega arith) (omega arith) refl) (λ _. (refl, refl)) (omega arith)
