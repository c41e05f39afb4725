-- ===== src/NodeStore.antt =====
-- node.go: the bytes under which a node is stored, with the hash of a leaf.
-- `sum_256` is SHA-256, a parameter. A node is written to one writer, whose bytes are returned;
-- after a failure, they are dropped.
pub mod Reads
pub mod Legacy
pub mod FirstByte
pub mod RoundTrip
use iavl.Prelude.{
  ℕ, zero, suc, ◌+◌, ◌-◌, ◌%◌, ◌^◌, Bool, true, false, not, ◌||◌, Option, none, some, get_or,
  is_some, ◌==◌, ltb, if◌then◌else◌, [], length, drop, Result, ok, err, panic, ◌>>=◌, Error,
}
use iavl.Prelude.Words.{two_8, two_32, two_64, lt_int64}
use iavl.Bytes.{Bytes}
use iavl.Encoding.{
  encode_varint, encode_bytes, encode_32_bytes_hash, decode_varint, decode_bytes,
  encode_varint_size, encode_bytes_size,
}
use iavl.Node.{NodeKey, Node, nil, node, Fields, is_leaf}
use iavl.StorageKey.{get_key, get_node_key}
use Prim.Native.Nat.{bit_and}

-- `int64(h)` of an `int8`
unfoldable pub sign_extend : ℕ → ℕ
sign_extend h = if ltb h 128 then h else h + (two_64 - two_8)

-- `x, n, err := encoding.DecodeVarint(buf); …; buf = buf[n:]`, and the same for byte slices
unfoldable pub read_varint : Bytes → Result (ℕ × Bytes)
read_varint buf = do (x, n) ← decode_varint buf; ok (x, drop n buf)

unfoldable pub read_bytes : Bytes → Result (Bytes × Bytes)
read_bytes buf = do (bz, n) ← decode_bytes buf; ok (bz, drop n buf)

-- `!= 0` of a masked mode
abbrev pub has_mode : ℕ → ℕ → Bool
has_mode mode flag = not (bit_and mode flag == 0)

-- A child key: a legacy one is a hash, another one is written by its version and nonce.
unfoldable pub write_child_key : (byte_writer legacy : Bool) → Bytes → Bytes → Result Bytes
write_child_key byte_writer true key w = ok (encode_32_bytes_hash w key)
write_child_key byte_writer false key w = do
  nk ← get_node_key key
  ok (encode_varint byte_writer (encode_varint byte_writer w nk.version) nk.nonce)

abbrev pub child_mode : Bytes → Option Bytes → ℕ
child_mode left right =
    (if length left == 32 then 1 else 0) + (if length (get_or right []) == 32 then 2 else 0)

unfoldable pub write_right : (byte_writer : Bool) → ℕ → Option Bytes → Bytes → Result Bytes
write_right byte_writer mode none w = err Error.right_node_key_empty
write_right byte_writer mode (some right) w = write_child_key byte_writer (has_mode mode 2) right w

unfoldable pub write_children :
    (byte_writer : Bool) → Option Bytes → Option Bytes → Bytes → Result Bytes
unfolding write_child_key write_right
write_children byte_writer none right w = err Error.left_node_key_empty
write_children byte_writer (some left) right w =
    let mode = child_mode left right in
    let w = encode_varint byte_writer w mode in
    do
      w ← write_child_key byte_writer (has_mode mode 1) left w
      write_right byte_writer mode right w

unfoldable pub write_bytes : (byte_writer : Bool) → Node → Bytes → Result Bytes
unfolding write_children sign_extend
write_bytes byte_writer nil w = err Error.nil_node
write_bytes byte_writer (node f a b) w =
    let w = encode_varint byte_writer w (sign_extend f.subtree_height) in
    let w = encode_varint byte_writer w f.size in
    let w = encode_bytes w f.key in
    if is_leaf f
    then ok (encode_bytes w (get_or f.value []))
    else write_children byte_writer f.left_node_key f.right_node_key
        (encode_32_bytes_hash w (get_or f.hash []))

unfoldable pub encoded_size : Fields → Result ℕ
encoded_size f =
    let n = 1 + encode_varint_size f.size + encode_bytes_size f.key in
    if is_leaf f then ok (n + encode_bytes_size (get_or f.value [])) else (do
      left ← child_size f.left_node_key
      right ← child_size f.right_node_key
      ok (n + encode_bytes_size (get_or f.hash []) + left + right))
  where
    child_size : Option Bytes → Result ℕ
    child_size none = ok 0
    child_size (some key) = do
      nk ← get_node_key key
      ok (encode_varint_size nk.version + encode_varint_size nk.nonce)

-- What `_hash` digests for a leaf; the hash itself takes no `io.ByteWriter`.
unfoldable pub leaf_hash_bytes : (Bytes → Bytes) → Fields → ℕ → Bytes
leaf_hash_bytes sum_256 f version =
    let w = encode_varint false [] (sign_extend f.subtree_height) in
    let w = encode_varint false w f.size in
    let w = encode_varint false w version in
    let w = encode_bytes w f.key in encode_32_bytes_hash w (sum_256 (get_or f.value []))

-- A child key, with what follows it.
unfoldable pub read_child_key : (legacy : Bool) → Bytes → Result (Bytes × Bytes)
unfolding read_bytes read_varint
read_child_key true buf = read_bytes buf
read_child_key false buf = do
  (version, buf) ← read_varint buf
  (nonce, buf) ← read_varint buf
  let nonce_32 = nonce % two_32
  if not (nonce == nonce_32)
      then err Error.invalid_nonce
      else ok (get_key (record { version = version; nonce = nonce_32 }), buf)

unfoldable pub read_leaf : (Bytes → Bytes) → Fields → ℕ → Bytes → Result Node
unfolding read_bytes leaf_hash_bytes
read_leaf sum_256 f version buf = do
  (val, buf) ← read_bytes buf
  let f : Fields = record f { value = some val }
  ok (node (record f { hash = some (sum_256 (leaf_hash_bytes sum_256 f version)) }) nil nil)

unfoldable pub read_children : Fields → Bytes → Result Node
unfolding read_bytes read_varint read_child_key
read_children f buf = do
  (hash, buf) ← read_bytes buf
  (mode, buf) ← read_varint buf
  if lt_int64 mode 0 || lt_int64 3 mode then err Error.invalid_mode else (do
    (left, buf) ← read_child_key (has_mode mode 1) buf
    (right, buf) ← read_child_key (has_mode mode 2) buf
    ok (
        node (record f { hash = some hash; left_node_key = some left; right_node_key = some right })
          nil nil))

unfoldable pub make_node : (Bytes → Bytes) → Bytes → Bytes → Result Node
unfolding read_varint read_bytes read_leaf read_children sign_extend
make_node sum_256 nk buf = do
  (height, buf) ← read_varint buf
  let height_8 = height % two_8
  if not (height == sign_extend height_8) then err Error.invalid_height else (do
    (size, buf) ← read_varint buf
    (key, buf) ← read_bytes buf
    node_key ← get_node_key nk
    let f : Fields = record {
      key = key;
      value = none;
      hash = none;
      node_key = some node_key;
      left_node_key = none;
      right_node_key = none;
      size = size;
      subtree_height = height_8;
      is_legacy = false;
    }
    if is_leaf f then read_leaf sum_256 f node_key.version buf else read_children f buf)
