-- ===== src/EncodingExamples.antt =====
-- The theorems on encodings and stored fast nodes at concrete bytes.
use iavl.Prelude.{
  ℕ, ◌+◌, ◌^◌, ◌<◌, ◌≤◌, ◌≡◌, refl, [], ◌∷◌, ◌++◌, true, ok, arith, length, take, drop, ◌-◌,
}
use iavl.Prelude.Words.{two_64}
use iavl.Bytes.{Bytes}
use iavl.Encoding.{
  encode_uvarint, encode_varint, encode_bytes, decode_uvarint, decode_varint, decode_bytes,
  encode_varint_size, encode_bytes_size, put_uvarint, f_varint_encode, zigzag, uvarint, varint,
  slice_bytes, decode_count, uvarint_loop, unzigzag,
}
use iavl.Encoding.RoundTrip.{
  decode_uvarint-encode_uvarint, decode_varint-encode_varint, decode_bytes-encode_bytes,
}
use iavl.Encoding.Safety.{decode_uvarint_safe, decode_varint_safe, decode_bytes_safe}
use iavl.Encoding.Size.{length-encode_varint, length-encode_bytes}
use iavl.FastNode.{FastNode, deserialize_node, write_bytes, encoded_size}
use iavl.FastNode.RoundTrip.{deserialize_node-write_bytes, length-write_bytes}

decode_uvarint-encode_uvarint_example :
    decode_uvarint (encode_uvarint [] 300 ++ 1 ∷ []) ≡ ok (300, length (encode_uvarint [] 300))
decode_uvarint-encode_uvarint_example = decode_uvarint-encode_uvarint 300 (1 ∷ []) (omega arith)

decode_varint-encode_varint_example :
    decode_varint (encode_varint true [] (2 ^ 64 - 2) ++ 1 ∷ [])
    ≡ ok (2 ^ 64 - 2, length (encode_varint true [] (2 ^ 64 - 2)))
decode_varint-encode_varint_example =
    decode_varint-encode_varint true (2 ^ 64 - 2) (1 ∷ []) (omega arith)

decode_bytes-encode_bytes_example :
    decode_bytes (encode_bytes [] (5 ∷ 6 ∷ []) ++ 1 ∷ [])
    ≡ ok (5 ∷ 6 ∷ [], length (encode_bytes [] (5 ∷ 6 ∷ [])))
unfolding encode_bytes encode_uvarint put_uvarint
decode_bytes-encode_bytes_example = decode_bytes-encode_bytes (5 ∷ 6 ∷ []) (1 ∷ []) (omega arith)

decode_uvarint_safe_example :
    (300 < two_64) × (0 < 2) × (2 ≤ length {A = ℕ} (0xac ∷ 2 ∷ [])) × (2 ≤ 10)
unfolding decode_uvarint uvarint decode_count uvarint_loop
decode_uvarint_safe_example = decode_uvarint_safe (0xac ∷ 2 ∷ []) 300 2 refl

decode_varint_safe_example :
    (150 < two_64) × (0 < 2) × (2 ≤ length {A = ℕ} (0xac ∷ 2 ∷ [])) × (2 ≤ 10)
unfolding decode_varint varint uvarint decode_count uvarint_loop unzigzag
decode_varint_safe_example = decode_varint_safe (0xac ∷ 2 ∷ []) 150 2 refl

abbrev five_six : Bytes
five_six = 5 ∷ 6 ∷ []

decode_bytes_safe_example :
    (n : ℕ) × (0 < n)
    × (n ≤ 3)
    × (3 ≤ length {A = ℕ} (2 ∷ 5 ∷ 6 ∷ 1 ∷ []))
    × (five_six ≡ take (3 - n) (drop n (2 ∷ 5 ∷ 6 ∷ 1 ∷ [])))
unfolding decode_bytes decode_uvarint uvarint slice_bytes decode_count uvarint_loop
decode_bytes_safe_example = decode_bytes_safe (2 ∷ 5 ∷ 6 ∷ 1 ∷ []) (5 ∷ 6 ∷ []) 3 (omega arith) refl

length-encode_varint_example :
    length (encode_varint true (9 ∷ []) 300) ≡ length {A = ℕ} (9 ∷ []) + encode_varint_size 300
length-encode_varint_example = length-encode_varint true (9 ∷ []) 300

length-encode_bytes_example :
    length (encode_bytes (9 ∷ []) (5 ∷ [])) ≡ length {A = ℕ} (9 ∷ []) + encode_bytes_size (5 ∷ [])
length-encode_bytes_example = length-encode_bytes (9 ∷ []) (5 ∷ [])

abbrev small_fast : FastNode
small_fast = record { key = 1 ∷ []; version_last_updated_at = 300; value = 7 ∷ 8 ∷ [] }

deserialize_node-write_bytes_example :
    deserialize_node (1 ∷ []) (write_bytes true small_fast [] ++ 9 ∷ []) ≡ ok small_fast
unfolding write_bytes encode_bytes encode_uvarint encode_varint f_varint_encode zigzag put_uvarint
deserialize_node-write_bytes_example =
    deserialize_node-write_bytes true small_fast (9 ∷ []) (omega arith) (omega arith)

length-write_bytes_example :
    length (write_bytes true small_fast (9 ∷ []))
    ≡ length {A = ℕ} (9 ∷ []) + encoded_size small_fast
length-write_bytes_example = length-write_bytes true small_fast (9 ∷ [])
