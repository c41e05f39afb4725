-- ===== src/KeyValues.antt =====
-- keyformat/key_format.go: keys of typed values, and the values scanned back from a key.
-- `int` and `uint` have 64 bits; a `*big.Int` holds any number.
pub mod RoundTrip
use iavl.Prelude.{ℕ, List, [], ◌∷◌, ltb, if◌then◌else◌, length, take, Result, ok, panic, ◌>>=◌}
use iavl.Bytes.{Bytes}
use iavl.StorageKey.{put_big_endian, big_endian}
use iavl.KeyFormat.{KeyFormat, key_bytes, scan_bytes}

-- The types that `format` knows, and one for all others.
pub data Value : Type 0 where
  uint64 int64 uint int uint32 int32 big_int : ℕ → Value
  bytes : Bytes → Value
  other : Value

unfoldable pub format : Value → Result Bytes
format (uint64 v) = ok (put_big_endian 8 v)
format (int64 v) = ok (put_big_endian 8 v)
format (uint v) = ok (put_big_endian 8 v)
format (int v) = ok (put_big_endian 8 v)
format (uint32 v) = ok (put_big_endian 4 v)
format (int32 v) = ok (put_big_endian 4 v)
format (bytes bz) = ok bz
format (big_int v) = panic
format other = panic

-- The types of pointers that `scan` knows, and one for all others.
pub data Target : Type 0 where
  to_int64 to_uint64 to_uint32 to_int32 to_bytes to_big_int to_other : Target

-- `binary.BigEndian.Uint64` and `Uint32`, which panic on too short a slice
abbrev pub read_uint : ℕ → Bytes → Result ℕ
read_uint width value =
    if ltb (length value) width then panic else ok (big_endian 0 (take width value))

unfoldable pub scan : Target → Bytes → Result Value
scan to_int64 value = do v ← read_uint 8 value; ok (int64 v)
scan to_uint64 value = do v ← read_uint 8 value; ok (uint64 v)
scan to_uint32 value = do v ← read_uint 4 value; ok (uint32 v)
scan to_int32 value = do v ← read_uint 4 value; ok (int32 v)
scan to_bytes value = ok (bytes value)
scan to_big_int value = ok (big_int (big_endian 0 value))
scan to_other value = panic

unfoldable pub format_all : List Value → Result (List Bytes)
unfolding format
format_all [] = ok []
format_all (a ∷ args) = do s ← format a; segments ← format_all args; ok (s ∷ segments)

unfoldable pub make_key : KeyFormat → List Value → Result Bytes
unfolding format_all key_bytes
make_key kf args =
    if ltb (length kf.layout) (length args)
    then panic
    else (do segments ← format_all args; key_bytes kf segments)

-- The values scanned, where Go writes through the pointers.
unfoldable pub scan_all : List Target → List Bytes → Result (List Value)
unfolding scan
scan_all [] segments = ok []
scan_all (a ∷ args) [] = panic
scan_all (a ∷ args) (s ∷ segments) = do v ← scan a s; vs ← scan_all args segments; ok (v ∷ vs)

unfoldable pub scan_values : KeyFormat → Bytes → List Target → Result (List Value)
unfolding scan_all scan_bytes
scan_values kf key args =
    let segments = scan_bytes kf key in
    if ltb (length segments) (length args) then panic else scan_all args segments
