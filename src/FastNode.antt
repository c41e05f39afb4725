-- ===== src/FastNode.antt =====
-- fastnode/fast_node.go: the latest value of a key, with the version that set it.
pub mod RoundTrip
use iavl.Prelude.{ℕ, ◌+◌, Bool, true, Result, ok, ◌>>=◌, length, drop}
use iavl.Bytes.{Bytes}
use iavl.Encoding.{
  encode_varint, encode_bytes, decode_varint, decode_bytes, encode_varint_size, encode_bytes_size,
}

pub record FastNode : Type 0 where
  pub key : Bytes
  pub version_last_updated_at : ℕ
  pub value : Bytes

unfoldable pub new_fast_node : Bytes → Bytes → ℕ → FastNode
new_fast_node key value version = record {
  key = key;
  version_last_updated_at = version;
  value = value;
}

unfoldable pub deserialize_node : Bytes → Bytes → Result FastNode
deserialize_node key buf = do
  (ver, n) ← decode_varint buf
  (val, end) ← decode_bytes (drop n buf)
  ok (record { key = key; version_last_updated_at = ver; value = val })

unfoldable pub encoded_size : FastNode → ℕ
encoded_size fn = encode_varint_size fn.version_last_updated_at + encode_bytes_size fn.value

-- The node is not nil.
unfoldable pub write_bytes : (byte_writer : Bool) → FastNode → Bytes → Bytes
write_bytes byte_writer fn w =
    encode_bytes (encode_varint byte_writer w fn.version_last_updated_at) fn.value
