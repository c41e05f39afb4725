-- ===== src/FastNode/RoundTrip.antt =====
-- fastnode/fast_node.go: `DeserializeNode` and `EncodedSize` on what `WriteBytes` writes.
use iavl.Prelude.{
  ◌+◌, ◌<◌, ◌≡◌, ◌∙◌, ap, Bool, [], ◌++◌, ok, length, length-append, arith, append_assoc,
  drop-append,
}
use iavl.Prelude.Words.{two_63, two_64}
use iavl.Bytes.{Bytes}
use iavl.Encoding.{encode_varint, encode_bytes, decode_varint, decode_bytes}
use iavl.Encoding.Size.{length-encode_varint, length-encode_bytes}
use iavl.Encoding.RoundTrip.{
  encode_bytes-append, decode_varint-encode_varint, decode_bytes-encode_bytes,
}
use iavl.FastNode.{FastNode, deserialize_node, encoded_size, write_bytes}

-- A fast node that is written to an empty buffer through any writer, and followed by anything, is
-- read back under its key, if its version is an `int64` and the buffer is no longer than a Go slice.
pub deserialize_node-write_bytes :
    (byte_writer : Bool) (fn : FastNode) (rest : Bytes)
    → fn.version_last_updated_at < two_64
    → length (write_bytes byte_writer fn [] ++ rest) < two_63
    → deserialize_node fn.key (write_bytes byte_writer fn [] ++ rest) ≡ ok fn
unfolding deserialize_node write_bytes
deserialize_node-write_bytes byte_writer fn rest hv fits =
    rw (start, version, drop-append front tail, value)
  where
    front : Bytes
    front = encode_varint byte_writer [] fn.version_last_updated_at

    tail : Bytes
    tail = encode_bytes [] fn.value ++ rest

    start : encode_bytes front fn.value ++ rest ≡ front ++ tail
    start =
        ap (λ b. b ++ rest) (encode_bytes-append front fn.value)
        ∙ append_assoc front (encode_bytes [] fn.value) rest

    version : decode_varint (front ++ tail) ≡ ok (fn.version_last_updated_at, length front)
    version = decode_varint-encode_varint byte_writer fn.version_last_updated_at tail hv

    room : length tail < two_63
    room = omega (arith, ap length start, length-append front tail)

    value : decode_bytes tail ≡ ok (fn.value, length (encode_bytes [] fn.value))
    value = decode_bytes-encode_bytes fn.value rest room

-- Writing a fast node adds exactly `EncodedSize` bytes.
pub length-write_bytes :
    (byte_writer : Bool) (fn : FastNode) (w : Bytes)
    → length (write_bytes byte_writer fn w) ≡ length w + encoded_size fn
unfolding write_bytes encoded_size
length-write_bytes byte_writer fn w = omega (
  arith,
  length-encode_bytes (encode_varint byte_writer w fn.version_last_updated_at) fn.value,
  length-encode_varint byte_writer w fn.version_last_updated_at,
)
