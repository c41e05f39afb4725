-- ===== src/MutableTree/SaveVersion.antt =====
-- mutable_tree.go: `SaveVersion`, on a working tree and its node database. `sum_256` is SHA-256.
-- A clone of the immutable tree shares its root, whose hash is computed in place.
use iavl.Prelude.{
  ℕ, ◌+◌, ◌%◌, [], Bool, false, not, Option, none, some, get_or, if◌then◌else◌, Result, ok, err,
  ◌>>=◌, Error,
}
use iavl.Prelude.Words.{two_64}
use iavl.Bytes.{Bytes, equal_bytes}
use iavl.Node.{Node, nil, node, Fields, NodeKey}
use iavl.Hashing.{hash_with_count}
use iavl.ImmutableTree.{ImmutableTree, is_nil}
use iavl.MemDb.{BTree}
use iavl.NodeDatabase.{NodeDatabase, save_empty_root, save_root, save_node, commit}
use iavl.NodeDatabase.Roots.{get_root, get_node}
use iavl.NodeDatabase.Versions.{version_exists}
use iavl.NodeDatabase.Upkeep.{reset_latest_version}
use iavl.MutableTree.{MutableTree, set_root}
use iavl.MutableTree.Saving.{working_version, save_new_nodes}
use iavl.MutableTree.FastSave.{save_fast_node_version}

-- `(existingRoot == nil && tree.root == nil) || (existingRoot != nil && bytes.Equal(…))`
unfoldable pub is_same_root : (existing_root root : Node) → Bytes → Bool
is_same_root nil root new_hash = is_nil root
is_same_root (node f a b) root new_hash = equal_bytes (get_or f.hash []) new_hash

-- a tree at a version, with a root
unfoldable pub at_version : MutableTree → Node → ℕ → MutableTree
at_version tree root version =
    let immutable : ImmutableTree = record (tree.immutable) { root = root; version = version } in
    record tree { immutable = immutable; last_saved = immutable }

-- The unsaved fast nodes are dropped where they have been saved.
unfoldable pub without_unsaved : MutableTree → MutableTree
without_unsaved tree =
    if not tree.skip_fast_storage_upgrade
    then record tree { unsaved_fast_node_additions = []; unsaved_fast_node_removals = [] }
    else tree

module _ (B : BTree) (sum_256 : Bytes → Bytes) where
  -- `WorkingHash`
  unfoldable pub working_hash : NodeDatabase B → MutableTree → Result (Bytes × MutableTree)
  unfolding set_root working_version
  working_hash ndb tree = do
    (h, root) ←
        hash_with_count sum_256 (working_version tree.immutable.version ndb.initial_version)
          tree.immutable.root
    ok (h, set_root tree root)

  unfoldable pub existing_root : NodeDatabase B → Option Bytes → Result (Node × NodeDatabase B)
  existing_root ndb none = ok (nil, ndb)
  existing_root ndb (some nk) = get_node B sum_256 ndb (some nk)

  -- The version exists: nothing is saved, and it is an error if the hash is another one.
  unfoldable pub save_existing :
      NodeDatabase B → MutableTree → ℕ → Result (Bytes × ℕ × MutableTree × NodeDatabase B)
  unfolding existing_root working_hash is_same_root at_version
  save_existing ndb tree version = do
    nk ← get_root B ndb version
    (existing, ndb) ← existing_root ndb nk
    (new_hash, tree) ← working_hash ndb tree
    if is_same_root existing tree.immutable.root new_hash
        then ok (new_hash, version, at_version tree existing version, ndb)
        else err Error.version_saved_differently

  -- the unsaved fast nodes
  unfoldable pub save_fast_nodes : NodeDatabase B → MutableTree → ℕ → Result (NodeDatabase B)
  save_fast_nodes ndb tree version =
      if not tree.skip_fast_storage_upgrade
      then save_fast_node_version B ndb tree.unsaved_fast_node_additions
          tree.unsaved_fast_node_removals version
      else ok ndb

  -- A root that was saved is referred to, and one in the old format is saved in the new one.
  unfoldable pub save_known_root :
      NodeDatabase B → Fields → Node → Node → NodeKey → ℕ → Result (Node × NodeDatabase B)
  save_known_root ndb f a b nk version = do
    ndb ← save_root B ndb version nk
    let root = node (record f { is_legacy = false }) a b
    if f.is_legacy then (do ndb ← save_node B ndb root; ok (root, ndb)) else ok (node f a b, ndb)

  unfoldable pub save_root_node : NodeDatabase B → Node → ℕ → Result (Node × NodeDatabase B)
  unfolding save_known_root
  save_root_node ndb nil version = do ndb ← save_empty_root B ndb version; ok (nil, ndb)
  save_root_node ndb (node f a b) version = elim (f.node_key) [
    | some nk ↦ save_known_root ndb f a b nk version
    | none ↦ save_new_nodes B sum_256 ndb (node f a b) version
  ]

  unfoldable pub save_new :
      NodeDatabase B → MutableTree → ℕ → Result (Bytes × ℕ × MutableTree × NodeDatabase B)
  unfolding save_fast_nodes save_root_node at_version without_unsaved reset_latest_version
  save_new ndb tree version = do
    ndb ← save_fast_nodes ndb tree version
    (root, ndb) ← save_root_node ndb tree.immutable.root version
    ndb ← commit B ndb
    (h, root) ← hash_with_count sum_256 ((version + 1) % two_64) root
    ok (
      h,
      version,
      without_unsaved (at_version tree root version),
      reset_latest_version B ndb version,
    )

  unfoldable pub save_version :
      NodeDatabase B → MutableTree → Result (Bytes × ℕ × MutableTree × NodeDatabase B)
  unfolding working_version save_existing save_new
  save_version ndb tree =
      let version = working_version tree.immutable.version ndb.initial_version in
      do
        (exists, ndb) ← version_exists B ndb version
        if exists then save_existing ndb tree version else save_new ndb tree version
