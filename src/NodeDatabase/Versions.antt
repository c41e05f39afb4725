-- ===== src/NodeDatabase/Versions.antt =====
-- nodedb.go: the first, the latest and the latest legacy version, and the readers of versions.
-- The latest legacy version is -1 once it is known that there is none.
use iavl.Prelude.{
  ℕ, zero, suc, ◌+◌, ◌-◌, ◌/◌, ◌%◌, List, [], ◌∷◌, Bool, true, false, not, ◌&&◌, some, ltb, ◌==◌,
  if◌then◌else◌, Result, ok, err, panic, stuck, ◌>>=◌,
}
use iavl.Prelude.Words.{two_32, two_63, two_64, lt_int64}
use iavl.Bytes.{Bytes}
use iavl.Increment.{cp_incr}
use iavl.StorageKey.{get_node_key}
use iavl.KeyFormat.{key_bytes}
use iavl.KeyValues.{Value, int64, to_int64, scan_values}
use iavl.PrefixFormatter.{FastPrefixFormatter, format_int64, scan_key}
use iavl.MemDb.{BTree, iterator, valid, iterator_key}
use iavl.NodeDatabase.{
  NodeDatabase, node_key_format, legacy_root_key_format, legacy_root_key, has_version,
  has_legacy_version,
}

abbrev pub node_key_prefix_format : FastPrefixFormatter
node_key_prefix_format = record { prefix = 115; length = 8; prefix_slice = 115 ∷ [] }

-- `legacyRootKeyFormat.Scan(key, &version)`
unfoldable pub scan_legacy_root : Bytes → Result ℕ
scan_legacy_root key = do
  values ← scan_values legacy_root_key_format key (to_int64 ∷ [])
  ok (first_int64 values)
  where
    first_int64 : List Value → ℕ
    first_int64 (int64 v ∷ values) = v
    first_int64 values = 0

-- `x >> 1` of an `int64`, which keeps the sign
unfoldable pub half_int64 : ℕ → ℕ
half_int64 x = if ltb x two_63 then x / 2 else x / 2 + two_63

module _ (B : BTree) where
  -- The loop that halves the range of versions; the sum of its two ends wraps.
  unfoldable pub search_first : ℕ → NodeDatabase B → ℕ → ℕ → Result ℕ
  unfolding half_int64
  search_first zero ndb first_version latest_version = stuck
  search_first (suc fuel) ndb first_version latest_version =
      elim (lt_int64 first_version latest_version) [
        | false ↦ ok latest_version
        | true ↦
            let version = half_int64 ((latest_version + first_version) % two_64) in
            do
              has ← has_version B ndb version
              elim has [
                | true ↦ search_first fuel ndb first_version version
                | false ↦ search_first fuel ndb ((version + 1) % two_64) latest_version
              ]
      ]

  unfoldable pub get_legacy_latest_version : NodeDatabase B → Result (ℕ × NodeDatabase B)
  unfolding legacy_root_key scan_legacy_root
  get_legacy_latest_version ndb =
      if not (ndb.legacy_latest_version == 0) then ok (ndb.legacy_latest_version, ndb) else (do
        start ← legacy_root_key 1
        end ← legacy_root_key (two_63 - 1)
        itr ← iterator B ndb.batch.db (some start) (some end) true
        if valid itr
            then (do
              k ← iterator_key itr
              version ← scan_legacy_root k
              ok (version, record ndb { legacy_latest_version = version }))
            else ok (two_64 - 1, record ndb { legacy_latest_version = two_64 - 1 }))

  unfoldable pub get_latest_version : NodeDatabase B → Result (ℕ × NodeDatabase B)
  unfolding get_legacy_latest_version
  get_latest_version ndb =
      if lt_int64 0 ndb.latest_version then ok (ndb.latest_version, ndb) else (do
        start ← format_int64 node_key_prefix_format 1
        end ← format_int64 node_key_prefix_format (two_63 - 1)
        itr ← iterator B ndb.batch.db (some start) (some end) true
        if valid itr
            then (do
              k ← iterator_key itr
              bz ← scan_key node_key_format k
              nk ← get_node_key bz
              ok (nk.version, record ndb { latest_version = nk.version }))
            else (do
              (legacy, ndb) ← get_legacy_latest_version ndb
              if lt_int64 0 legacy
                  then ok (legacy, record ndb { latest_version = legacy })
                  else ok (0, ndb)))

  unfoldable pub get_first_version : NodeDatabase B → Result (ℕ × NodeDatabase B)
  unfolding search_first scan_legacy_root get_latest_version
  get_first_version ndb = if lt_int64 0 ndb.first_version then ok (ndb.first_version, ndb) else (do
    start ← key_bytes legacy_root_key_format []
    end ← cp_incr start
    itr ← iterator B ndb.batch.db (some start) end false
    if valid itr
        then (do k ← iterator_key itr; version ← scan_legacy_root k; ok (version, ndb))
        else (do
          (latest, ndb) ← get_latest_version ndb
          first ← search_first 64 ndb ndb.first_version latest
          ok (first, record ndb { first_version = first })))

  -- `VersionExists` of the working tree, where an error means that it does not
  unfoldable pub version_exists : NodeDatabase B → ℕ → Result (Bool × NodeDatabase B)
  unfolding get_legacy_latest_version get_first_version get_latest_version
  version_exists ndb version = or_false (do
    (legacy, ndb) ← get_legacy_latest_version ndb
    if not (lt_int64 legacy version)
        then (do has ← has_legacy_version B ndb version; ok (has, ndb))
        else (do
          (first, ndb) ← get_first_version ndb
          (latest, ndb) ← get_latest_version ndb
          ok (not (lt_int64 version first) && not (lt_int64 latest version), ndb)))
    where
      or_false : Result (Bool × NodeDatabase B) → Result (Bool × NodeDatabase B)
      or_false (ok r) = ok r
      or_false (err e) = ok (false, ndb)
      or_false panic = panic
      or_false stuck = stuck

  -- `versionReaders[version]`, 0 if it is missing
  unfoldable pub readers : ℕ → List (ℕ × ℕ) → ℕ
  readers version [] = 0
  readers version ((v, r) ∷ l) = if v == version then r else readers version l

  unfoldable pub set_readers : ℕ → ℕ → List (ℕ × ℕ) → List (ℕ × ℕ)
  set_readers version r [] = (version, r) ∷ []
  set_readers version r ((v, q) ∷ l) =
      let rest = set_readers version r l in if v == version then (v, r) ∷ l else (v, q) ∷ rest

  unfoldable pub delete_readers : ℕ → List (ℕ × ℕ) → List (ℕ × ℕ)
  delete_readers version [] = []
  delete_readers version ((v, q) ∷ l) =
      let rest = delete_readers version l in if v == version then rest else (v, q) ∷ rest

  unfoldable pub incr_version_readers : NodeDatabase B → ℕ → NodeDatabase B
  unfolding readers set_readers
  incr_version_readers ndb version = record ndb {
    version_readers =
        set_readers version ((readers version ndb.version_readers + 1) % two_32)
          ndb.version_readers;
  }

  unfoldable pub decr_version_readers : NodeDatabase B → ℕ → NodeDatabase B
  unfolding readers set_readers delete_readers
  decr_version_readers ndb version =
      let r = readers version ndb.version_readers in
      let l =
        if ltb 0 r then set_readers version (r - 1) ndb.version_readers else ndb.version_readers in
      record ndb {
        version_readers = if readers version l == 0 then delete_readers version l else l;
      }
