-- ===== src/DatabaseExamples.antt =====
-- The theorems on the node database at concrete databases.
use iavl.Prelude.{
  ℕ, zero, suc, ◌≡◌, ◌≤◌, refl, [], ◌∷◌, true, Option, none, some, ok, stuck, ◌-◌, leb, arith, inl,
  inr, Bool-cases, if◌then◌else◌, sym, ap, subst, ◌∙◌, ◌>>=◌,
}
use iavl.Prelude.Words.{two_63}
use iavl.Bytes.{Bytes, compare_bytes, equal_bytes}
use iavl.FastNode.{FastNode}
use iavl.FastNode
use iavl.Encoding
use iavl.Node.{NodeKey}
use iavl.StorageKey.{get_key, get_root_key, put_big_endian}
use iavl.PrefixFormatter.{format_key}
use iavl.Avl.Sorted.{find, put}
use iavl.Bytes.Map
use iavl.Cache
use iavl.Cache.{LruCache, new}
use iavl.Cache.Methods.{IsCache}
use iavl.Cache.Recency
use iavl.Cache.Recency.{eq_of_equal}
use iavl.MemDb
use iavl.MemDb.{new_batch_with_flusher}
use iavl.MemDb.Flushing.{IsOpen}
use iavl.NodeDatabase.{
  NodeDatabase, node_key_format, fast_storage_version_value, has_upgraded_to_fast_storage,
  get_fast_node, has_version, commit, get_key_of, next_storage_version, split,
}
use iavl.NodeDatabase.Versions.{half_int64, search_first}
use iavl.NodeDatabase.Search.{search_first-first}
use iavl.NodeDatabase.Saved.{Saves, Fits, IsAt-with_node, with_node, key_of}
use iavl.NodeDatabase.FastReads.{Committed, Read, get_fast_node-Read}
use iavl.NodeDatabase.Roots.{get_root}
use iavl.NodeDatabase.RootReads.{
  saved_before, CanSave, can_refer, save_root_of, get_root-save_root_of,
}
use iavl.MutableTree.FastSave.{save_fast_node_version}
use iavl.MutableTree.FastSave.Commits.{after_save, save_fast_node_version-Committed}
use iavl.StoreExamples.{sorted_tree}

abbrev pub one : FastNode
one = record { key = 1 ∷ []; version_last_updated_at = 1; value = 7 ∷ [] }

abbrev pub two : FastNode
two = record { key = 2 ∷ []; version_last_updated_at = 2; value = 8 ∷ [] }

abbrev pub database : sorted_tree.Items → NodeDatabase sorted_tree
database db = record {
  batch = new_batch_with_flusher sorted_tree db 100;
  storage_version = fast_storage_version_value;
  first_version = 0;
  latest_version = 3;
  legacy_latest_version = 0;
  initial_version = 0;
  version_readers = [];
  node_cache = new 2;
  fast_node_cache = new 2;
}

database-IsOpen : (db : sorted_tree.Items) → IsOpen sorted_tree (database db).batch db
unfolding MemDb.apply_ops new_batch_with_flusher
database-IsOpen db = record {
  pending = [];
  is_open = refl;
  content = refl;
  bounded = inr (omega arith);
}

abbrev nothing : Bytes → Option FastNode
nothing k = none

-- a database with the fast node of one key
abbrev pub with_one : sorted_tree.Items
with_one = sorted_tree.replace_or_insert ([], tt) (102 ∷ 1 ∷ []) (FastNode.write_bytes true one [])

pub one-Fits : Fits one
unfolding FastNode.write_bytes Encoding.encode_bytes Encoding.encode_uvarint Encoding.encode_varint
    Encoding.f_varint_encode Encoding.zigzag Encoding.put_uvarint
one-Fits = record { version = omega arith; size = omega arith }

pub two-Fits : Fits two
unfolding FastNode.write_bytes Encoding.encode_bytes Encoding.encode_uvarint Encoding.encode_varint
    Encoding.f_varint_encode Encoding.zigzag Encoding.put_uvarint
two-Fits = record { version = omega arith; size = omega arith }

none-some : (n : FastNode) → none ≡ some n → ⊥
none-some n e = cc

with_one-Saves : Saves sorted_tree (database with_one) with_one (with_node nothing one)
unfolding Cache.new Map.load Recency.element_of Recency.IsDistinct Recency.find find
with_one-Saves = record {
  opened = database-IsOpen with_one;
  stored = λ k. IsAt-with_node sorted_tree ([], tt) nothing one k one-Fits refl;
  cache = record { indexed = λ k. refl; distinct = tt; fresh = tt };
  cached = λ k n e. absurd (none-some n e);
}

with_one-Committed : Committed sorted_tree (database with_one) (with_node nothing one)
unfolding has_upgraded_to_fast_storage compare_bytes new_batch_with_flusher
with_one-Committed = record { saves = with_one-Saves; upgraded = refl }

get_fast_node-Read_example :
    Read sorted_tree
      (get_fast_node sorted_tree (database with_one) (1 ∷ []))
      (with_node nothing one)
      (1 ∷ [])
get_fast_node-Read_example =
    get_fast_node-Read sorted_tree (database with_one) (with_node nothing one) (1 ∷ []) refl
      with_one-Committed

added_two :
    (k : Bytes) (n : FastNode) → Map.load k ((2 ∷ [], two) ∷ []) ≡ some n → Fits n × (n.key ≡ k)
unfolding Map.load
added_two k n h = elim (Bool-cases (equal_bytes k (2 ∷ []))) [
  | inl c ↦
      let e : two ≡ n = some_same (subst (λ b. (if b then some two else none) ≡ some n) c h) in
      (subst Fits e two-Fits, sym (eq_of_equal k (2 ∷ []) c ∙ ap key_of e))
  | inr c ↦ absurd (none-some n (subst (λ b. (if b then some two else none) ≡ some n) c h))
]
  where
    some_same : {m : FastNode} → some m ≡ some n → m ≡ n
    some_same e = cc

save_fast_node_version-Committed_example :
    (after : NodeDatabase sorted_tree) × ((save_fast_node_version sorted_tree
          (database with_one)
          ((2 ∷ [], two) ∷ [])
          ((1 ∷ [], true) ∷ [])
          2
        >>= commit sorted_tree)
      ≡ ok after)
    × Committed sorted_tree after
        (after_save sorted_tree ((2 ∷ [], two) ∷ []) ((1 ∷ [], true) ∷ []) (with_node nothing one))
    × (next_storage_version after.storage_version ≡ ok fast_storage_version_value)
unfolding next_storage_version split compare_bytes new_batch_with_flusher
save_fast_node_version-Committed_example =
    save_fast_node_version-Committed sorted_tree (database with_one) (with_node nothing one)
      ((2 ∷ [], two) ∷ []) ((1 ∷ [], true) ∷ []) 2 (omega arith) added_two refl with_one-Saves

-- a database with the roots of the versions 2 and 3
abbrev root_at : ℕ → Bytes
root_at version = format_key node_key_format (get_root_key version)

abbrev with_roots : sorted_tree.Items
with_roots =
    sorted_tree.replace_or_insert (sorted_tree.replace_or_insert ([], tt) (root_at 2) (5 ∷ []))
      (root_at 3) []

roots_from_two : (v : ℕ) → v ≤ 3 → has_version sorted_tree (database with_roots) v ≡ ok (leb 2 v)
unfolding has_version MemDb.has format_key get_root_key put_big_endian find put compare_bytes
    new_batch_with_flusher
roots_from_two zero h = refl
roots_from_two (suc zero) h = refl
roots_from_two (suc (suc zero)) h = refl
roots_from_two (suc (suc (suc zero))) h = refl
roots_from_two (suc (suc (suc (suc v)))) h = absurd (omega arith)

search_first-first_example : search_first sorted_tree 64 (database with_roots) 0 3 ≡ ok 2
search_first-first_example =
    search_first-first sorted_tree (database with_roots) 2 3 (omega arith) (omega arith)
      roots_from_two

abbrev root_of_two : NodeKey
root_of_two = record { version = 2; nonce = 1 }

-- the third version refers to the root of the second one
root_of_two-CanSave : CanSave sorted_tree with_roots 3 (saved_before root_of_two)
unfolding format_key get_key get_root_key put_big_endian find put compare_bytes
root_of_two-CanSave = can_refer (5 ∷ []) (omega arith) (omega arith) refl

no_nodes-IsCache : IsCache get_key_of (new 2)
unfolding Cache.new Map.load Recency.element_of Recency.IsDistinct
no_nodes-IsCache = record { indexed = λ k. refl; distinct = tt; fresh = tt }

get_root-save_root_of_example :
    (after : NodeDatabase sorted_tree) × ((save_root_of sorted_tree
          (database with_roots)
          3
          (saved_before root_of_two)
        >>= commit sorted_tree)
      ≡ ok after)
    × (get_root sorted_tree after 3 ≡ ok (some (get_key root_of_two)))
get_root-save_root_of_example =
    get_root-save_root_of sorted_tree (database with_roots) with_roots 3 (saved_before root_of_two)
      (database-IsOpen with_roots) no_nodes-IsCache root_of_two-CanSave

-- Where only the largest `int64` is a version, the sum of the ends of the range wraps in the second
-- round: the search goes on among negative versions, and 64 rounds do not find the first one.
abbrev with_last_root : sorted_tree.Items
with_last_root = sorted_tree.replace_or_insert ([], tt) (root_at (two_63 - 1)) []

search_first-wraps : search_first sorted_tree 64 (database with_last_root) 0 (two_63 - 1) ≡ stuck
unfolding search_first half_int64 has_version MemDb.has format_key get_root_key put_big_endian find
    put compare_bytes new_batch_with_flusher
search_first-wraps = refl
