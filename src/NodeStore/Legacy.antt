-- ===== src/NodeStore/Legacy.antt =====
-- node.go: reading a node of the old format, whose key is its hash.
use iavl.Prelude.{◌%◌, not, none, some, true, ◌==◌, if◌then◌else◌, Result, ok, err, ◌>>=◌, Error}
use iavl.Prelude.Words.{two_8}
use iavl.Bytes.{Bytes}
use iavl.Node.{Node, nil, node, Fields, is_leaf}
use iavl.NodeStore.{sign_extend, read_varint, read_bytes}

unfoldable pub make_legacy_node : Bytes → Bytes → Result Node
unfolding sign_extend read_varint read_bytes
make_legacy_node hash buf = do
  (height, buf) ← read_varint buf
  let height_8 = height % two_8
  if not (height == sign_extend height_8) then err Error.invalid_height else (do
    (size, buf) ← read_varint buf
    (ver, buf) ← read_varint buf
    (key, buf) ← read_bytes buf
    let f : Fields = record {
      key = key;
      value = none;
      hash = some hash;
      node_key = some (record { version = ver; nonce = 0 });
      left_node_key = none;
      right_node_key = none;
      size = size;
      subtree_height = height_8;
      is_legacy = true;
    }
    if is_leaf f
        then (do (val, buf) ← read_bytes buf; ok (node (record f { value = some val }) nil nil))
        else (do
          (left_hash, buf) ← read_bytes buf
          (right_hash, buf) ← read_bytes buf
          ok (
              node (record f { left_node_key = some left_hash; right_node_key = some right_hash })
                nil nil)))
