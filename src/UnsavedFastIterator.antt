-- ===== src/UnsavedFastIterator.antt =====
-- unsaved_fast_iterator.go: the fast nodes of the working tree in the order of their keys, merged
-- from the saved ones and the unsaved additions and removals. The node database and the two maps
-- are not nil, and `valid` and `err` are never set. `Next` calls itself past each removed fast node,
-- on fuel.
pub mod Merges
pub mod Steps
pub mod Additions
pub mod Sorting
pub mod Ranges
pub mod Collected
use iavl.Prelude.{
  ℕ, zero, suc, ◌+◌, List, [], ◌∷◌, Bool, true, false, not, ◌&&◌, ◌||◌, Option, none, some, is_some,
  ltb, if◌then◌else◌, length, Result, ok, panic, stuck, ◌>>=◌, get_elem?,
}
use iavl.Bytes.{Bytes, lt_bytes, equal_bytes}
use iavl.Bytes.Map
use iavl.FastNode.{FastNode}
use iavl.MemDb.{BTree}
use iavl.NodeDatabase.{NodeDatabase}
use iavl.FastIterator.{FastIterator, is_valid, current_key, current_value, new_fast_iterator}
use iavl.FastIterator

pub record UnsavedFastIterator : Type 0 where
  pub start : Option Bytes
  pub end : Option Bytes
  pub ascending : Bool
  pub next_key : Option Bytes
  pub next_val : Option Bytes
  pub fast_iterator : FastIterator
  pub next_unsaved_node_idx : ℕ
  pub unsaved_fast_node_additions : List (Bytes × FastNode)
  pub unsaved_fast_node_removals : List (Bytes × Bool)
  pub unsaved_fast_nodes_to_sort : List Bytes

-- `sort.Slice`, an insertion sort of distinct strings
unfoldable pub less : Bool → Bytes → Bytes → Bool
less ascending a b = if ascending then lt_bytes a b else lt_bytes b a

unfoldable pub insert_key : Bool → Bytes → List Bytes → List Bytes
unfolding less
insert_key ascending k [] = k ∷ []
insert_key ascending k (j ∷ l) =
    let rest = insert_key ascending k l in if less ascending j k then j ∷ rest else k ∷ j ∷ l

unfoldable pub sort_slice : Bool → List Bytes → List Bytes
unfolding insert_key
sort_slice ascending [] = []
sort_slice ascending (k ∷ l) = insert_key ascending k (sort_slice ascending l)

-- the tests of a key against the ends of the range
abbrev pub is_before : Option Bytes → Bytes → Bool
is_before none key = false
is_before (some start) key = lt_bytes key start

abbrev pub is_from : Option Bytes → Bytes → Bool
is_from none key = false
is_from (some end) key = not (lt_bytes key end)

-- the keys that `Range` collects of the additions
unfoldable pub keys_in_range : Option Bytes → Option Bytes → List (Bytes × FastNode) → List Bytes
keys_in_range start end [] = []
keys_in_range start end ((k, fast_node) ∷ m) =
    let rest = keys_in_range start end m in
    if is_before start fast_node.key
    then rest
    else (if is_from end fast_node.key then rest else k ∷ rest)

-- `nextUnsavedNodeIdx < len(unsavedFastNodesToSort)`
abbrev pub has_unsaved : UnsavedFastIterator → Bool
has_unsaved iter = ltb iter.next_unsaved_node_idx (length iter.unsaved_fast_nodes_to_sort)

-- `bytes.Compare(iter.end, iter.start) != 1`, where both ends are given
abbrev pub is_empty_range : Option Bytes → Option Bytes → Bool
is_empty_range (some start) (some end) = not (lt_bytes start end)
is_empty_range start end = false

unfoldable pub valid : UnsavedFastIterator → Bool
valid iter =
    if is_empty_range iter.start iter.end
    then false
    else (is_valid iter.fast_iterator
        || has_unsaved iter
        || (is_some iter.next_key && is_some iter.next_val))

-- `unsavedFastNodeRemovals.Load`, of the key on disk
unfoldable pub is_removed : UnsavedFastIterator → Option Bytes → Bool
is_removed iter none = false
is_removed iter (some key) = is_some (Map.load key iter.unsaved_fast_node_removals)

-- The next unsaved key; the index is in range, and `val.(*fastnode.Node)` panics on a missing value.
unfoldable pub unsaved_key : UnsavedFastIterator → Result Bytes
unsaved_key iter = elim (get_elem? iter.unsaved_fast_nodes_to_sort iter.next_unsaved_node_idx) [
  | none ↦ panic
  | some key ↦ ok key
]

unfoldable pub unsaved_node : UnsavedFastIterator → Bytes → Result FastNode
unsaved_node iter key = elim (Map.load key iter.unsaved_fast_node_additions) [
  | none ↦ panic
  | some fast_node ↦ ok fast_node
]

abbrev pub take_unsaved : UnsavedFastIterator → FastNode → UnsavedFastIterator
take_unsaved iter fast_node = record iter {
  next_key = some fast_node.key;
  next_val = some fast_node.value;
  next_unsaved_node_idx = iter.next_unsaved_node_idx + 1;
}

-- `diskKeyStr >= nextUnsavedKey`, or `<=`
unfoldable pub is_unsaved_next : Bool → Bytes → Bytes → Bool
is_unsaved_next ascending disk_key key =
    if ascending then not (lt_bytes disk_key key) else not (lt_bytes key disk_key)

unfoldable pub domain : UnsavedFastIterator → Option Bytes × Option Bytes
domain iter = (iter.start, iter.end)

unfoldable pub close : UnsavedFastIterator → UnsavedFastIterator
close iter = record iter { fast_iterator = FastIterator.close iter.fast_iterator }

module _ (B : BTree) where
  -- the node on disk is next
  unfoldable pub take_disk : NodeDatabase B → UnsavedFastIterator → Result UnsavedFastIterator
  take_disk ndb iter = do
    key ← current_key iter.fast_iterator
    value ← current_value iter.fast_iterator
    fast_iterator ← FastIterator.next B ndb iter.fast_iterator
    ok (record iter { next_key = key; next_val = value; fast_iterator = fast_iterator })

  -- An unsaved node is next, and prevails over a saved one of the same key.
  unfoldable pub take_unsaved_over :
      NodeDatabase B → UnsavedFastIterator → Bytes → Bytes → FastNode → Result UnsavedFastIterator
  take_unsaved_over ndb iter disk_key key fast_node =
      if equal_bytes disk_key key
      then (do
        fast_iterator ← FastIterator.next B ndb iter.fast_iterator
        ok (take_unsaved (record iter { fast_iterator = fast_iterator }) fast_node))
      else ok (take_unsaved iter fast_node)

  -- nodes on disk and unsaved nodes are left
  unfoldable pub take_either :
      NodeDatabase B → UnsavedFastIterator → Option Bytes → Result UnsavedFastIterator
  unfolding unsaved_key unsaved_node is_unsaved_next take_disk take_unsaved_over
  take_either ndb iter none = panic
  take_either ndb iter (some disk_key) = do
    key ← unsaved_key iter
    fast_node ← unsaved_node iter key
    if is_unsaved_next iter.ascending disk_key key
        then take_unsaved_over ndb iter disk_key key fast_node
        else take_disk ndb iter

  unfoldable pub next : ℕ → NodeDatabase B → UnsavedFastIterator → Result UnsavedFastIterator
  unfolding is_removed unsaved_key unsaved_node take_disk take_either
  next zero ndb iter = stuck
  next (suc fuel) ndb iter = do
    disk_key ← current_key iter.fast_iterator
    elim (is_valid iter.fast_iterator) [
      | true ↦ elim (is_removed iter disk_key) [
        | true ↦ do
          fast_iterator ← FastIterator.next B ndb iter.fast_iterator
          next fuel ndb (record iter { fast_iterator = fast_iterator })
        | false ↦ if has_unsaved iter then take_either ndb iter disk_key else take_disk ndb iter
      ]
      | false ↦
          if has_unsaved iter
          then (do
            key ← unsaved_key iter
            fast_node ← unsaved_node iter key
            ok (take_unsaved iter fast_node))
          else ok (record iter { next_key = none; next_val = none })
    ]

  unfoldable pub new_unsaved_fast_iterator :
      ℕ
      → NodeDatabase B
      → Option Bytes
      → Option Bytes
      → Bool
      → List (Bytes × FastNode)
      → List (Bytes × Bool)
      → Result UnsavedFastIterator
  unfolding new_fast_iterator keys_in_range sort_slice next
  new_unsaved_fast_iterator fuel ndb start end ascending additions removals = do
    fast_iterator ← new_fast_iterator B ndb start end ascending
    next fuel ndb (record {
      start = start;
      end = end;
      ascending = ascending;
      next_key = none;
      next_val = none;
      fast_iterator = fast_iterator;
      next_unsaved_node_idx = 0;
      unsaved_fast_node_additions = additions;
      unsaved_fast_node_removals = removals;
      unsaved_fast_nodes_to_sort = sort_slice ascending (keys_in_range start end additions);
    })
