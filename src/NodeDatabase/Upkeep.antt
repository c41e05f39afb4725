-- ===== src/NodeDatabase/Upkeep.antt =====
-- nodedb.go: a new node database, the traversals, the forced upgrade and the versions that it
-- remembers. A callback changes a state, which the traversal passes on; the iterators of the
-- database in memory have no errors of their own.
use iavl.Prelude.{
  ℕ, zero, suc, List, [], ◌∷◌, Bool, true, false, not, Option, none, some, length, Result, ok, err,
  panic, stuck, ◌>>=◌,
}
use iavl.Bytes.{Bytes, equal_bytes}
use iavl.FastNode.{FastNode}
use iavl.Increment.{cp_incr}
use iavl.KeyFormat.{key_bytes}
use iavl.Cache
use iavl.MemDb.{
  BTree, MemDbIterator, new_batch_with_flusher, iterator, valid, next, iterator_key, iterator_value,
}
use iavl.MemDb
use iavl.NodeDatabase.{
  NodeDatabase, metadata_key_format, fast_key_format, storage_version_key,
  default_storage_version_value, split, itoa, save_fast_node_unlocked,
}
use iavl.NodeDatabase.Versions.{get_latest_version}

-- `fastNodeCacheSize`
abbrev pub fast_node_cache_size : ℕ
fast_node_cache_size = 100000

-- The calls of `fn`, on fuel; each step takes one item.
unfoldable pub traverse_loop {ℓ} :
    {S : Type ℓ} → ℕ → (Bytes → Bytes → S → Result S) → MemDbIterator → S → Result S
traverse_loop zero fn itr s = stuck
traverse_loop (suc fuel) fn itr s = elim (valid itr) [
  | false ↦ ok s
  | true ↦ do
    key ← iterator_key itr
    value ← iterator_value itr
    s ← fn key value s
    itr ← next itr
    traverse_loop fuel fn itr s
]

module _ (B : BTree) where
  open B use {Items}

  -- An error of the read counts as no version; the other fields are those of an unread database.
  unfoldable pub new_node_db :
      Items → (cache_size flush_threshold initial_version : ℕ) → Result (NodeDatabase B)
  unfolding Cache.new new_batch_with_flusher
  new_node_db db cache_size flush_threshold initial_version = do
    key ← key_bytes metadata_key_format (storage_version_key ∷ [])
    version ← version_of (MemDb.get B db key)
    ok (record {
      batch = new_batch_with_flusher B db flush_threshold;
      storage_version = version;
      first_version = 0;
      latest_version = 0;
      legacy_latest_version = 0;
      initial_version = initial_version;
      version_readers = [];
      node_cache = Cache.new cache_size;
      fast_node_cache = Cache.new fast_node_cache_size;
    })
    where
      version_of : Result (Option Bytes) → Result Bytes
      version_of (ok (some version)) = ok version
      version_of (ok none) = ok default_storage_version_value
      version_of (err e) = ok default_storage_version_value
      version_of panic = panic
      version_of stuck = stuck

  unfoldable pub reset_first_version : NodeDatabase B → ℕ → NodeDatabase B
  reset_first_version ndb version = record ndb { first_version = version }

  unfoldable pub reset_legacy_latest_version : NodeDatabase B → ℕ → NodeDatabase B
  reset_legacy_latest_version ndb version = record ndb { legacy_latest_version = version }

  unfoldable pub reset_latest_version : NodeDatabase B → ℕ → NodeDatabase B
  reset_latest_version ndb version = record ndb { latest_version = version }

  -- `SaveFastNode` and `SaveFastNodeNoCache`
  unfoldable pub save_fast_node : NodeDatabase B → FastNode → Result (NodeDatabase B)
  save_fast_node ndb n = save_fast_node_unlocked B ndb n true

  unfoldable pub save_fast_node_no_cache : NodeDatabase B → FastNode → Result (NodeDatabase B)
  save_fast_node_no_cache ndb n = save_fast_node_unlocked B ndb n false

  -- Whether the version behind the delimiter is not the latest one.
  unfoldable pub should_force_fast_storage_upgrade : NodeDatabase B → Result (Bool × NodeDatabase B)
  unfolding split itoa get_latest_version
  should_force_fast_storage_upgrade ndb = of_parts (split ndb.storage_version)
    where
      of_parts : List Bytes → Result (Bool × NodeDatabase B)
      of_parts (version ∷ saved ∷ []) = do
        (latest, ndb) ← get_latest_version B ndb
        ok (not (equal_bytes saved (itoa latest)), ndb)
      of_parts parts = ok (false, ndb)

  unfoldable pub get_prefix_iterator : NodeDatabase B → Bytes → Result MemDbIterator
  get_prefix_iterator ndb [] = iterator B ndb.batch.db none none false
  get_prefix_iterator ndb (b ∷ bz) = do
    end ← cp_incr (b ∷ bz)
    iterator B ndb.batch.db (some (b ∷ bz)) end false

  module _ {ℓ} {S : Type ℓ} (fn : Bytes → Bytes → S → Result S) where
    abbrev all_items : MemDbIterator → ℕ
    all_items itr = suc (suc (length itr.ch))

    unfoldable pub traverse_range : NodeDatabase B → Option Bytes → Option Bytes → S → Result S
    unfolding traverse_loop
    traverse_range ndb start end s = do
      itr ← iterator B ndb.batch.db start end false
      traverse_loop (all_items itr) fn itr s

    unfoldable pub traverse : NodeDatabase B → S → Result S
    unfolding traverse_range
    traverse ndb s = traverse_range ndb none none s

    unfoldable pub traverse_prefix : NodeDatabase B → Bytes → S → Result S
    unfolding get_prefix_iterator traverse_loop
    traverse_prefix ndb prefix s = do
      itr ← get_prefix_iterator ndb prefix
      traverse_loop (all_items itr) fn itr s

    unfoldable pub traverse_fast_nodes : NodeDatabase B → S → Result S
    unfolding traverse_prefix
    traverse_fast_nodes ndb s = do
      prefix ← key_bytes fast_key_format []
      traverse_prefix ndb prefix s
