-- ===== src/StorageExamples.antt =====
-- The theorems on stored keys and nodes at concrete values, and runs of the code.
use iavl.Prelude.{
  List, ◌≡◌, refl, [], ◌∷◌, ◌++◌, true, false, none, some, ok, arith, compare, Ordering, take,
  replicate,
}
use iavl.Bytes.{Bytes, compare_bytes}
use iavl.Node.{NodeKey, nil, node, Fields}
use iavl.StorageKey.{get_key, get_node_key, put_big_endian}
use iavl.StorageKey.Laws.{get_node_key-get_key, get_key-order}
use iavl.Encoding.{put_uvarint}
use iavl.Compress.{ExportNode, CompressExporter, CompressImporter, compress_next}
use iavl.Compress.RoundTrip.{
  exporter, importer, exports_leaf, exports_branch, transfer, transfer-Exports,
}
use iavl.KeyFormat.{KeyFormat, new_key_format, key_length, key_bytes, scan_bytes}
use iavl.KeyFormat.Join.{joined}
use iavl.KeyFormat.RoundTrip.{padded, key_bytes-joined, scan_bytes-key_bytes}
use iavl.NodeStore.{make_node, write_bytes}
use iavl.NodeStore.Reads.{legacy_key, new_key}
use iavl.NodeStore.RoundTrip.{IsStored, stored_inner, loaded, make_node-write_bytes}

abbrev fifth_key : NodeKey
fifth_key = record { version = 5; nonce = 300 }

abbrev sixth_key : NodeKey
sixth_key = record { version = 6; nonce = 1 }

get_key_run : get_key fifth_key ≡ 0 ∷ 0 ∷ 0 ∷ 0 ∷ 0 ∷ 0 ∷ 0 ∷ 5 ∷ 0 ∷ 0 ∷ 1 ∷ 44 ∷ []
unfolding get_key put_big_endian
get_key_run = refl

get_node_key-get_key_example : get_node_key (get_key fifth_key) ≡ ok fifth_key
get_node_key-get_key_example = get_node_key-get_key fifth_key (omega arith) (omega arith)

get_key-order_example : compare_bytes (get_key fifth_key) (get_key sixth_key) ≡ elim (compare 5 6) [
  | Ordering.lt ↦ Ordering.lt
  | Ordering.eq ↦ compare 300 1
  | Ordering.gt ↦ Ordering.gt
]
get_key-order_example =
    get_key-order fifth_key sixth_key (omega arith) (omega arith) (omega arith) (omega arith)

-- In place of SHA-256: the first bytes, filled up with zeros.
abbrev first_bytes : Bytes → Bytes
first_bytes bz = take 32 (bz ++ replicate 32 0)

abbrev mixed_children : Fields
mixed_children = record {
  key = 7 ∷ 8 ∷ [];
  value = none;
  hash = some (replicate 32 1);
  node_key = some fifth_key;
  left_node_key = some (replicate 32 2);
  right_node_key = some (get_key sixth_key);
  size = 3;
  subtree_height = 2;
  is_legacy = false;
}

mixed_children-IsStored : IsStored mixed_children
mixed_children-IsStored =
    stored_inner (replicate 32 1) (replicate 32 2) (get_key sixth_key) (omega arith) (omega arith)
      (omega arith) refl refl refl refl (legacy_key refl)
      (new_key sixth_key (omega arith) (omega arith))

make_node-write_bytes_example :
    (written : Bytes) × (write_bytes true (node mixed_children nil nil) [] ≡ ok written)
    × (make_node first_bytes (get_key fifth_key) (written ++ 9 ∷ [])
        ≡ ok (loaded first_bytes fifth_key mixed_children))
make_node-write_bytes_example =
    make_node-write_bytes first_bytes true mixed_children fifth_key nil nil (9 ∷ [])
      mixed_children-IsStored (omega arith) (omega arith) (omega arith)

-- A format of a version and a name.
abbrev version_name : KeyFormat
version_name = record { prefix = 114; layout = 4 ∷ 0 ∷ []; length = 5; unbounded = true }

version_name-made : new_key_format 114 (4 ∷ 0 ∷ []) ≡ ok version_name
unfolding new_key_format
version_name-made = refl

abbrev version_and_name : List Bytes
version_and_name = (1 ∷ 2 ∷ []) ∷ (7 ∷ 8 ∷ 9 ∷ []) ∷ []

key_bytes_run : key_bytes version_name version_and_name ≡ ok (114 ∷ 0 ∷ 0 ∷ 1 ∷ 2 ∷ 7 ∷ 8 ∷ 9 ∷ [])
unfolding key_bytes key_length
key_bytes_run = refl

key_bytes-joined_example :
    key_bytes version_name version_and_name ≡ ok (114 ∷ joined (4 ∷ 0 ∷ []) version_and_name)
key_bytes-joined_example =
    key_bytes-joined 114 (4 ∷ 0 ∷ []) version_name version_and_name version_name-made
      (omega arith, (refl, tt))

scan_bytes-key_bytes_example :
    (key : Bytes) × (key_bytes version_name version_and_name ≡ ok key)
    × (scan_bytes version_name key ≡ padded (4 ∷ 0 ∷ []) version_and_name)
scan_bytes-key_bytes_example =
    scan_bytes-key_bytes 114 (4 ∷ 0 ∷ []) version_name version_and_name version_name-made
      (omega arith, (refl, tt)) refl

abbrev left_leaf : ExportNode
left_leaf = record { key = 1 ∷ 2 ∷ []; value = some (7 ∷ []); version = 3; height = 0 }

abbrev right_leaf : ExportNode
right_leaf = record { key = 1 ∷ 4 ∷ []; value = some (8 ∷ []); version = 5; height = 0 }

abbrev top_branch : ExportNode
top_branch = record { key = 1 ∷ 4 ∷ []; value = none; version = 5; height = 1 }

abbrev three_nodes : List ExportNode
three_nodes = left_leaf ∷ right_leaf ∷ top_branch ∷ []

compress_next_run :
    compress_next (record { last_key = 1 ∷ 2 ∷ []; version_stack = 3 ∷ [] }) right_leaf
    ≡ ok (
      record { key = 1 ∷ 4 ∷ []; value = some (8 ∷ []); version = 5; height = 0 },
      record { last_key = 1 ∷ 4 ∷ []; version_stack = 5 ∷ 3 ∷ [] },
    )
unfolding compress_next put_uvarint
compress_next_run = refl

transfer-Exports_example :
    (e : CompressExporter) × (i : CompressImporter) × (transfer
        (exporter [] [])
        (importer [] [] [])
        three_nodes
      ≡ ok (three_nodes, e, i))
transfer-Exports_example = transfer-Exports three_nodes (1 ∷ 2 ∷ []) (
    exports_branch top_branch (left_leaf ∷ []) (right_leaf ∷ []) (1 ∷ 2 ∷ []) refl (omega arith)
      (exports_leaf left_leaf refl (omega arith) (omega arith))
      (exports_leaf right_leaf refl (omega arith) (omega arith)))
