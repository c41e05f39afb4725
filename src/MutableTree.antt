-- ===== src/MutableTree.antt =====
-- mutable_tree.go: the working tree, with insertion, removal and the unsaved fast nodes.
-- A method returns the new state of the tree beside its results. Copies and rotations return new
-- nodes; the logger and the mutex leave no trace.
pub mod Rotations
pub mod Turning
pub mod LeftHeavy
pub mod RightHeavy
pub mod Balancing
pub mod Insertion
pub mod Removal
pub mod Contract
pub mod FastStorage
pub mod Session
pub mod Rollback
pub mod FastSave
pub mod Saving
pub mod SaveVersion
use iavl.Prelude.{
  ℕ, zero, suc, ◌+◌, ◌%◌, Bool, true, false, not, Option, none, some, ◌==◌, if◌then◌else◌, is_some,
  get_or, List, [], Ordering, Result, ok, err, panic, stuck, ◌>>=◌, Error,
}
use iavl.Prelude.Words.{ℤ, lt_pos, lt_neg, two_64, lt_int64}
use iavl.Bytes.{Bytes, compare_bytes, lt_bytes, equal_bytes}
use iavl.Bytes.Map
use iavl.FastNode.{FastNode, new_fast_node}
use iavl.Node.{
  Node, nil, node, Fields, NodeDb, fields, left_of, right_of, set_left, set_right, is_leaf,
  new_node, clone, get_right_node, calc_height_and_size, calc_balance,
}
use iavl.Rebalance.{balance}
use iavl.ImmutableTree.{ImmutableTree, depth_limit, is_nil, tree_get}

pub record MutableTree : Type 0 where
  pub immutable : ImmutableTree
  pub last_saved : ImmutableTree
  pub unsaved_fast_node_additions : List (Bytes × FastNode)
  pub unsaved_fast_node_removals : List (Bytes × Bool)
  pub skip_fast_storage_upgrade : Bool

unfoldable pub add_unsaved_addition : MutableTree → Bytes → FastNode → MutableTree
add_unsaved_addition tree key fast_node = record tree {
  unsaved_fast_node_removals = Map.delete key tree.unsaved_fast_node_removals;
  unsaved_fast_node_additions = Map.store key fast_node tree.unsaved_fast_node_additions;
}

unfoldable pub add_unsaved_removal : MutableTree → Bytes → MutableTree
add_unsaved_removal tree key = record tree {
  unsaved_fast_node_additions = Map.delete key tree.unsaved_fast_node_additions;
  unsaved_fast_node_removals = Map.store key true tree.unsaved_fast_node_removals;
}

-- `tree.root = root`
unfoldable pub set_root : MutableTree → Node → MutableTree
set_root tree root = record tree { immutable = record (tree.immutable) { root = root } }

-- What `Rollback` goes back to: a copy of the last saved tree, or an empty tree at version 0.
unfoldable pub saved_tree : MutableTree → ImmutableTree
saved_tree tree = if lt_int64 0 tree.immutable.version then tree.last_saved else record {
  root = nil;
  version = 0;
  skip_fast_storage_upgrade = tree.skip_fast_storage_upgrade;
}

unfoldable pub rollback : MutableTree → MutableTree
rollback tree =
    let tree = record tree { immutable = saved_tree tree } in
    if not tree.skip_fast_storage_upgrade
    then record tree { unsaved_fast_node_additions = []; unsaved_fast_node_removals = [] }
    else tree

-- An inner node over two children, as `recursiveSetLeaf` makes it.
abbrev pub new_inner : Bytes → Node → Node → Node
new_inner key left_node right_node =
    node
      (record {
        key = key;
        value = none;
        hash = none;
        node_key = none;
        left_node_key = none;
        right_node_key = none;
        size = 2;
        subtree_height = 1;
        is_legacy = false;
      })
      left_node right_node

unfoldable pub recursive_set_leaf :
    MutableTree → Node → Fields → Bytes → Bytes → Node × Bool × MutableTree
unfolding add_unsaved_addition new_fast_node
recursive_set_leaf tree n f key value =
    let version = (tree.immutable.version + 1) % two_64 in
    let tree' =
      if not tree.skip_fast_storage_upgrade
      then add_unsaved_addition tree key (new_fast_node key value version)
      else tree in
    elim (compare_bytes key f.key) [
      | Ordering.lt ↦ (new_inner f.key (new_node key value) n, false, tree')
      | Ordering.gt ↦ (new_inner key n (new_node key value), false, tree')
      | Ordering.eq ↦ (new_node key value, true, tree')
    ]

module _ (ndb : NodeDb) where
  -- After a child was replaced: an updated value changes no height; otherwise rebalance.
  unfoldable pub finish_set : Node → Bool → MutableTree → Result (Node × Bool × MutableTree)
  unfolding balance
  finish_set n true tree = ok (n, true, tree)
  finish_set n false tree = do
    n ← calc_height_and_size ndb n
    n ← balance ndb n
    ok (n, false, tree)

  unfoldable pub recursive_set :
      ℕ → MutableTree → Node → Bytes → Bytes → Result (Node × Bool × MutableTree)
  unfolding recursive_set_leaf finish_set
  recursive_set zero tree n key value = stuck
  recursive_set (suc fuel) tree n key value = do
    f ← fields n
    if is_leaf f then ok (recursive_set_leaf tree n f key value) else (do
      n ← clone ndb n
      f ← fields n
      elim (lt_bytes key f.key) [
        | true ↦ do
          left ← left_of n
          (left, updated, tree) ← recursive_set fuel tree left key value
          n ← set_left n left
          finish_set n updated tree
        | false ↦ do
          right ← right_of n
          (right, updated, tree) ← recursive_set fuel tree right key value
          n ← set_right n right
          finish_set n updated tree
      ])

  -- `set` and `Set`: a nil value is an error. On an error Go keeps what was done to the maps of
  -- unsaved nodes; the model keeps no state beside an error.
  unfoldable pub set : MutableTree → Bytes → Option Bytes → Result (Bool × MutableTree)
  unfolding set_root recursive_set add_unsaved_addition new_fast_node is_nil
  set tree key none = err Error.nil_value
  set tree key (some value) =
      if is_nil tree.immutable.root
      then (let version = (tree.immutable.version + 1) % two_64 in
          let tree' =
            if not tree.skip_fast_storage_upgrade
            then add_unsaved_addition tree key (new_fast_node key value version)
            else tree in
          ok (false, set_root tree' (new_node key value)))
      else (do
        (root, updated, tree') ← recursive_set depth_limit tree tree.immutable.root key value
        ok (updated, set_root tree' root))

  -- what `recursiveRemove` returns: the new node, the new key, the value, and whether it removed
  abbrev pub Removed : Type 0
  Removed = Node × Option Bytes × Option Bytes × Bool

  abbrev pub set_key : Node → Option Bytes → Result Node
  set_key nil key = panic
  set_key (node f a b) key = ok (node (record f { key = get_or key f.key }) a b)

  -- what is done with the answer for the left child, and with that for the right one
  unfoldable pub after_remove_left : Node → Removed → Result Removed
  unfolding balance is_nil
  after_remove_left n (new_left, new_key, value, removed) =
      if not removed
      then ok (n, none, value, removed)
      else (if is_nil new_left
          then (do f ← fields n; right ← right_of n; ok (right, some f.key, value, removed))
          else (do
            n ← set_left n new_left
            n ← calc_height_and_size ndb n
            n ← balance ndb n
            ok (n, new_key, value, removed)))

  unfoldable pub after_remove_right : Node → Removed → Result Removed
  unfolding balance is_nil
  after_remove_right n (new_right, new_key, value, removed) =
      if not removed
      then ok (n, none, value, removed)
      else (if is_nil new_right then (do left ← left_of n; ok (left, none, value, removed)) else (do
        n ← set_right n new_right
        n ← set_key n new_key
        n ← calc_height_and_size ndb n
        n ← balance ndb n
        ok (n, none, value, removed)))

  unfoldable pub recursive_remove : ℕ → Node → Bytes → Result Removed
  unfolding after_remove_left after_remove_right
  recursive_remove zero n key = stuck
  recursive_remove (suc fuel) n key = do
    f ← fields n
    if is_leaf f
        then ok
            (if equal_bytes key f.key then (nil, none, f.value, true) else (n, none, none, false))
        else (do
          n ← clone ndb n
          f ← fields n
          elim (lt_bytes key f.key) [
            | true ↦ do
              left ← left_of n
              answer ← recursive_remove fuel left key
              after_remove_left n answer
            | false ↦ do
              right ← right_of n
              answer ← recursive_remove fuel right key
              after_remove_right n answer
          ])

  unfoldable pub remove : MutableTree → Bytes → Result (Option Bytes × Bool × MutableTree)
  unfolding set_root recursive_remove add_unsaved_removal is_nil
  remove tree key = if is_nil tree.immutable.root then ok (none, false, tree) else (do
    (new_root, new_key, value, removed) ← recursive_remove depth_limit tree.immutable.root key
    if not removed
        then ok (none, false, tree)
        else (let tree' =
              if not tree.skip_fast_storage_upgrade then add_unsaved_removal tree key else tree in
            ok (value, true, set_root tree' new_root)))

  unfoldable pub mutable_get : MutableTree → Bytes → Result (Option Bytes)
  unfolding is_nil
  mutable_get tree key =
      if is_nil tree.immutable.root
      then ok none
      else (if not tree.skip_fast_storage_upgrade
          then elim (Map.load key tree.unsaved_fast_node_additions) [
            | some fast_node ↦ ok (some fast_node.value)
            | none ↦
                if is_some (Map.load key tree.unsaved_fast_node_removals)
                then ok none
                else tree_get ndb tree.immutable key
          ]
          else tree_get ndb tree.immutable key)
