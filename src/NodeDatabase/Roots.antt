-- ===== src/NodeDatabase/Roots.antt =====
-- nodedb.go: the node under a key, and the key of the root of a version.
use iavl.Prelude.{
  ℕ, [], ◌∷◌, ◌++◌, Option, none, some, ◌==◌, if◌then◌else◌, length, drop, Result, ok, err, ◌>>=◌,
  Error,
}
use iavl.Bytes.{Bytes}
use iavl.Node.{Node, NodeKey}
use iavl.StorageKey.{get_key, get_node_key, get_root_key}
use iavl.NodeStore.{make_node}
use iavl.NodeStore.Legacy.{make_legacy_node}
use iavl.PrefixFormatter.{format_key}
use iavl.Cache
use iavl.MemDb.{BTree}
use iavl.NodeDatabase.{
  NodeDatabase, db_get, node_key_format, legacy_node_key_format, get_key_of, legacy_root_key,
  is_reference_root,
}

module _ (B : BTree) where
  module _ (sum_256 : Bytes → Bytes) where
    -- `GetNode` on a miss of the cache
    unfoldable pub load_node : NodeDatabase B → Bytes → Result (Node × NodeDatabase B)
    unfolding get_key_of make_legacy_node
    load_node ndb nk =
        let is_legacy = length nk == 32 in
        let db_key =
          if is_legacy
          then format_key legacy_node_key_format nk
          else format_key node_key_format nk in
        do
          buf ← db_get B ndb db_key
          elim buf [
            | none ↦ err Error.node_missing
            | some buf ↦ do
              n ← if is_legacy then make_legacy_node nk buf else make_node sum_256 nk buf
              (old, cache) ← Cache.add get_key_of ndb.node_cache n
              ok (n, record ndb { node_cache = cache })
          ]

    unfoldable pub get_node : NodeDatabase B → Option Bytes → Result (Node × NodeDatabase B)
    unfolding load_node
    get_node ndb none = err Error.node_missing_node_key
    get_node ndb (some nk) = do
      (cached, cache) ← Cache.get ndb.node_cache nk
      elim cached [
        | some n ↦ ok (n, record ndb { node_cache = cache })
        | none ↦ load_node (record ndb { node_cache = cache }) nk
      ]

  -- where no root of the new format is stored
  unfoldable pub get_legacy_root : NodeDatabase B → ℕ → Result (Option Bytes)
  unfolding legacy_root_key
  get_legacy_root ndb version = do
    key ← legacy_root_key version
    val ← db_get B ndb key
    elim val [
      | none ↦ err Error.version_does_not_exist
      | some val ↦ if length val == 0 then ok none else ok (some val)
    ]

  -- A reference to a root under (version, 1), which the pruning may have moved to (version, 0).
  unfoldable pub referred_root : NodeDatabase B → Bytes → Result (Option Bytes)
  referred_root ndb val = do
    nk ← get_node_key (drop 1 val)
    found ← db_get B ndb val
    elim found [
      | some root ↦ ok (some (get_key nk))
      | none ↦
          let rnk : NodeKey = record { version = nk.version; nonce = 0 } in
          do
            found ← db_get B ndb (format_key node_key_format (get_key rnk))
            elim found [
              | none ↦ err Error.version_does_not_exist
              | some root ↦ ok (some (get_key rnk))
            ]
    ]

  -- the value under the key of a root: none at all, a reference of one of two lengths, or a node
  unfoldable pub root_of_value : NodeDatabase B → Bytes → Bytes → Result (Option Bytes)
  unfolding is_reference_root referred_root
  root_of_value ndb root_key [] = ok none
  root_of_value ndb root_key (b ∷ bz) = do
    (is_ref, n) ← is_reference_root (b ∷ bz)
    if is_ref
        then (if n == 13
            then referred_root ndb (b ∷ bz)
            else (if n == 9
                then ok (some (bz ++ (0 ∷ 0 ∷ 0 ∷ 1 ∷ [])))
                else err Error.invalid_reference_root))
        else ok (some root_key)

  unfoldable pub get_root : NodeDatabase B → ℕ → Result (Option Bytes)
  unfolding get_legacy_root root_of_value
  get_root ndb version =
      let root_key = get_root_key version in
      do
        val ← db_get B ndb (format_key node_key_format root_key)
        elim val [ none ↦ get_legacy_root ndb version | some val ↦ root_of_value ndb root_key val ]
