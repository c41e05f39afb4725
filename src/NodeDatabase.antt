-- ===== src/NodeDatabase.antt =====
-- nodedb.go: the node database, over the database in memory and the batch that flushes itself.
-- `sum_256` is SHA-256, and the interface of google/btree is that of the database in memory, both
-- parameters. A method returns the new state beside its result; after an error Go keeps what was
-- done before it, the model keeps nothing. The statistics, the logger and the mutex leave no trace.
-- A cached node is a value here: Go caches a pointer to it.
pub mod Roots
pub mod RootReads
pub mod Search
pub mod Saved
pub mod FastReads
pub mod Versions
pub mod Upkeep
pub mod NodeIterator
use iavl.Prelude.{
  ℕ, zero, suc, ◌+◌, ◌-◌, ◌/◌, ◌%◌, ◌≡◌, refl, List, [], ◌∷◌, ◌++◌, Bool, true, false, not, ◌&&◌,
  get_or, ◌^◌, ◌||◌, Option, none, some, is_some, ltb, leb, ◌==◌, if◌then◌else◌, length, drop,
  Result, ok, err, panic, stuck, ◌>>=◌, Error,
}
use iavl.Prelude.Words.{two_64, lt_int64}
use iavl.Bytes.{Bytes, lt_bytes, equal_bytes}
use iavl.FastNode.{FastNode, deserialize_node}
use iavl.FastNode
use iavl.Node.{NodeKey, Node, nil, node, Fields}
use iavl.StorageKey.{get_key, get_node_key, get_root_key}
use iavl.NodeStore.{write_bytes, make_node}
use iavl.NodeStore.Legacy.{make_legacy_node}
use iavl.KeyFormat.{KeyFormat, key_bytes}
use iavl.KeyValues.{int64, make_key}
use iavl.PrefixFormatter.{FastPrefixFormatter, new_fast_prefix_formatter, format_key}
use iavl.Cache.{LruCache}
use iavl.Cache
use iavl.MemDb.{BTree, BatchWithFlusher, flusher_set, flusher_delete, flusher_write}
use iavl.MemDb

abbrev pub node_key_format : FastPrefixFormatter
node_key_format = record { prefix = 115; length = 12; prefix_slice = 115 ∷ [] }

abbrev pub legacy_node_key_format : FastPrefixFormatter
legacy_node_key_format = record { prefix = 110; length = 32; prefix_slice = 110 ∷ [] }

abbrev pub fast_key_format : KeyFormat
fast_key_format = record { layout = 0 ∷ []; length = 1; prefix = 102; unbounded = true }

abbrev pub metadata_key_format : KeyFormat
metadata_key_format = record { layout = 0 ∷ []; length = 1; prefix = 109; unbounded = true }

abbrev pub legacy_root_key_format : KeyFormat
legacy_root_key_format = record { layout = 8 ∷ []; length = 9; prefix = 114; unbounded = false }

-- "storage_version", "1.0.0", "1.1.0" and "-"
abbrev pub storage_version_key : Bytes
storage_version_key =
    115 ∷ 116 ∷ 111 ∷ 114 ∷ 97 ∷ 103 ∷ 101 ∷ 95 ∷ 118 ∷ 101 ∷ 114 ∷ 115 ∷ 105 ∷ 111 ∷ 110 ∷ []

abbrev pub default_storage_version_value : Bytes
default_storage_version_value = 49 ∷ 46 ∷ 48 ∷ 46 ∷ 48 ∷ []

abbrev pub fast_storage_version_value : Bytes
fast_storage_version_value = 49 ∷ 46 ∷ 49 ∷ 46 ∷ 48 ∷ []

abbrev pub fast_storage_version_delimiter : ℕ
fast_storage_version_delimiter = 45

-- `GetKey` of a node; a cached node is not nil and has a key.
unfoldable pub get_key_of : Node → Bytes
get_key_of nil = []
get_key_of (node f a b) = if f.is_legacy then get_or f.hash [] else of_node_key f.node_key
  where
    of_node_key : Option NodeKey → Bytes
    of_node_key none = []
    of_node_key (some nk) = get_key nk

unfoldable pub fast_node_key : Bytes → Result Bytes
fast_node_key key = key_bytes fast_key_format (key ∷ [])

unfoldable pub legacy_root_key : ℕ → Result Bytes
legacy_root_key version = make_key legacy_root_key_format (int64 version ∷ [])

-- `GetStorageVersion() >= fastStorageVersionValue`, on strings
abbrev pub is_fast_version : Bytes → Bool
is_fast_version v = not (lt_bytes v fast_storage_version_value)

-- `strings.Split(s, "-")`
unfoldable pub split : Bytes → List Bytes
split [] = [] ∷ []
split (c ∷ s) =
    let rest = split s in if c == fast_storage_version_delimiter then [] ∷ rest else prepend c rest
  where
    prepend : ℕ → List Bytes → List Bytes
    prepend c [] = (c ∷ []) ∷ []
    prepend c (part ∷ parts) = (c ∷ part) ∷ parts

-- `strconv.Itoa` of a number that is not negative; one of 64 bits has at most 20 digits.
unfoldable pub digits : ℕ → ℕ → Bytes → Bytes
digits zero n acc = acc
digits (suc fuel) n acc =
    let more = digits fuel (n / 10) ((48 + n % 10) ∷ acc) in
    if ltb n 10 then (48 + n) ∷ acc else more

unfoldable pub itoa : ℕ → Bytes
unfolding digits
itoa n = if ltb n (2 ^ 63) then digits 20 n [] else 45 ∷ digits 20 (two_64 - n) []

-- the version that stands in front of the delimiter, or that of fast storage
unfoldable pub next_storage_version : Bytes → Result Bytes
unfolding split
next_storage_version v =
    if is_fast_version v then first_of (split v) else ok fast_storage_version_value
  where
    first_of : List Bytes → Result Bytes
    first_of [] = panic
    first_of (x ∷ []) = ok x
    first_of (x ∷ y ∷ []) = ok x
    first_of (x ∷ y ∷ z ∷ l) = err Error.invalid_fast_storage_version

-- `!= nil`, then `bz[0]`, which panics on no bytes: whether it refers to another root
unfoldable pub is_reference_root : Bytes → Result (Bool × ℕ)
is_reference_root [] = panic
is_reference_root (b ∷ bz) = ok (if b == 115 then (true, length (b ∷ bz)) else (false, 0))

module _ (B : BTree) where
  pub record NodeDatabase : Type 0 where
    pub batch : BatchWithFlusher B
    pub storage_version : Bytes
    pub first_version : ℕ
    pub latest_version : ℕ
    pub legacy_latest_version : ℕ
    pub initial_version : ℕ
    pub version_readers : List (ℕ × ℕ)
    pub node_cache : LruCache Node
    pub fast_node_cache : LruCache FastNode

  -- `ndb.db.Get`
  abbrev pub db_get : NodeDatabase → Bytes → Result (Option Bytes)
  db_get ndb key = MemDb.get B ndb.batch.db key

  -- `ndb.batch.Set` and `Delete`
  unfoldable pub set_in_batch : NodeDatabase → Bytes → Bytes → Result NodeDatabase
  set_in_batch ndb key value = do
    batch ← flusher_set B ndb.batch key (some value)
    ok (record ndb { batch = batch })

  unfoldable pub delete_in_batch : NodeDatabase → Bytes → Result NodeDatabase
  delete_in_batch ndb key = do
    batch ← flusher_delete B ndb.batch key
    ok (record ndb { batch = batch })

  unfoldable pub commit : NodeDatabase → Result NodeDatabase
  commit ndb = do batch ← flusher_write B ndb.batch; ok (record ndb { batch = batch })

  unfoldable pub has_upgraded_to_fast_storage : NodeDatabase → Bool
  has_upgraded_to_fast_storage ndb = is_fast_version ndb.storage_version

  -- what was read under the key of a fast node, into the cache
  unfoldable pub cache_fast_node :
      NodeDatabase → Bytes → Option Bytes → Result (Option FastNode × NodeDatabase)
  cache_fast_node ndb key none = ok (none, ndb)
  cache_fast_node ndb key (some buf) = do
    fast_node ← deserialize_node key buf
    (old, cache) ← Cache.add (λ n. n.key) ndb.fast_node_cache fast_node
    ok (some fast_node, record ndb { fast_node_cache = cache })

  -- `GetFastNode` after the look into the cache
  unfoldable pub load_fast_node :
      NodeDatabase → Bytes → Option FastNode → Result (Option FastNode × NodeDatabase)
  unfolding fast_node_key cache_fast_node
  load_fast_node ndb key (some fast_node) = ok (some fast_node, ndb)
  load_fast_node ndb key none = do
    db_key ← fast_node_key key
    buf ← db_get ndb db_key
    cache_fast_node ndb key buf

  unfoldable pub get_fast_node : NodeDatabase → Bytes → Result (Option FastNode × NodeDatabase)
  unfolding has_upgraded_to_fast_storage load_fast_node
  get_fast_node ndb key =
      if not (has_upgraded_to_fast_storage ndb)
      then err Error.not_fast_storage
      else (if length key == 0 then err Error.key_empty else (do
        (cached, cache) ← Cache.get ndb.fast_node_cache key
        load_fast_node (record ndb { fast_node_cache = cache }) key cached))

  -- `saveFastNodeUnlocked`, for a node whose key is not nil
  unfoldable pub save_fast_node_unlocked : NodeDatabase → FastNode → Bool → Result NodeDatabase
  unfolding fast_node_key set_in_batch
  save_fast_node_unlocked ndb fast_node should_add_to_cache = do
    db_key ← fast_node_key fast_node.key
    ndb ← set_in_batch ndb db_key (FastNode.write_bytes true fast_node [])
    if should_add_to_cache
        then (do
          (old, cache) ← Cache.add (λ n. n.key) ndb.fast_node_cache fast_node
          ok (record ndb { fast_node_cache = cache }))
        else ok ndb

  unfoldable pub delete_fast_node : NodeDatabase → Bytes → Result NodeDatabase
  unfolding fast_node_key delete_in_batch
  delete_fast_node ndb key = do
    db_key ← fast_node_key key
    ndb ← delete_in_batch ndb db_key
    (removed, cache) ← Cache.remove_key ndb.fast_node_cache key
    ok (record ndb { fast_node_cache = cache })

  unfoldable pub set_fast_storage_version_to_batch : NodeDatabase → ℕ → Result NodeDatabase
  unfolding next_storage_version itoa set_in_batch
  set_fast_storage_version_to_batch ndb latest_version = do
    version ← next_storage_version ndb.storage_version
    let new_version = version ++ fast_storage_version_delimiter ∷ itoa latest_version
    db_key ← key_bytes metadata_key_format (storage_version_key ∷ [])
    ndb ← set_in_batch ndb db_key new_version
    ok (record ndb { storage_version = new_version })

  -- the nodes of the trees
  unfoldable pub save_node : NodeDatabase → Node → Result NodeDatabase
  unfolding set_in_batch get_key_of
  save_node ndb nil = panic
  save_node ndb (node f a b) =
      if not (is_some f.node_key) then err Error.node_missing_node_key else (do
        buf ← write_bytes true (node f a b) []
        ndb ← set_in_batch ndb (format_key node_key_format (get_key_of (node f a b))) buf
        (old, cache) ← Cache.add get_key_of ndb.node_cache (node f a b)
        ok (record ndb { node_cache = cache }))

  unfoldable pub has_node : NodeDatabase → Bytes → Result Bool
  has_node ndb nk = MemDb.has B ndb.batch.db (format_key node_key_format nk)

  unfoldable pub has_version : NodeDatabase → ℕ → Result Bool
  has_version ndb version =
      MemDb.has B ndb.batch.db (format_key node_key_format (get_root_key version))

  unfoldable pub has_legacy_version : NodeDatabase → ℕ → Result Bool
  unfolding legacy_root_key
  has_legacy_version ndb version = do key ← legacy_root_key version; MemDb.has B ndb.batch.db key

  unfoldable pub save_empty_root : NodeDatabase → ℕ → Result NodeDatabase
  unfolding set_in_batch
  save_empty_root ndb version =
      set_in_batch ndb (format_key node_key_format (get_root_key version)) []

  unfoldable pub save_root : NodeDatabase → ℕ → NodeKey → Result NodeDatabase
  unfolding set_in_batch
  save_root ndb version nk =
      set_in_batch ndb (format_key node_key_format (get_root_key version))
        (format_key node_key_format (get_key nk))
