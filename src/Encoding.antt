-- ===== src/Encoding.antt =====
-- internal/encoding/encoding.go: varints and length-prefixed byte slices.
-- A writer is the list of the bytes written to it: the code writes to a `bytes.Buffer` or to a
-- hash, neither of which fails. `byte_writer` says whether it is an `io.ByteWriter` (a buffer is,
-- a hash is not). `put_uvarint`, `put_varint`, `uvarint`, `varint` and `len_64` are the functions
-- of Go's `encoding/binary` and `math/bits` that the code calls. The number of bytes read that Go
-- returns beside an error is dropped: no caller looks at it. `int` has 64 bits.
pub mod Words
pub mod Size
pub mod RoundTrip
pub mod Safety
use iavl.Prelude.{
  ℕ, zero, suc, ◌+◌, ◌-◌, ◌*◌, ◌/◌, ◌%◌, ◌^◌, ◌≤◌, ◌<◌, List, [], ◌∷◌, ◌++◌, Bool, true, false,
  ◌||◌, ◌&&◌, ltb, leb, ◌==◌, if◌then◌else◌, length, take, drop, arith, Result, ok, err, ◌>>=◌,
  Error,
}
use iavl.Prelude.Words.{ℤ, pos, negsuc, two_63, two_64, lt_int64, is_negative_64}
use iavl.Prelude.Order.{lt_wf}
use iavl.Bytes.{Bytes}
use Prim.Native.Nat.{bit_and, bit_or}
use mathlib.Core.Logic.{dite}
use mathlib.Core.WellFounded.{Acc}
use native.Mathlib.Decide.{dec_lt}

pub shift_shrinks : (x : ℕ) → 127 < x → x / 128 < x
shift_shrinks x h = omega arith

-- `for x >= 0x80 { buf[i] = byte(x) | 0x80; x >>= 7; i++ }; buf[i] = byte(x)`
put_uvarint_loop : (x : ℕ) → Acc ◌<◌ x → Bytes
put_uvarint_loop x (Acc.intro _ smaller) =
    dite (dec_lt 127 x)
      (λ more.
        bit_or (x % 256) 0x80 ∷ put_uvarint_loop (x / 128) (smaller _ (shift_shrinks x more)))
      (λ _. x % 256 ∷ [])

unfoldable pub put_uvarint : ℕ → Bytes
unfolding put_uvarint_loop lt_wf dec_lt
put_uvarint x = put_uvarint_loop x (lt_wf.apply x)

-- `ux := uint64(x) << 1; if x < 0 { ux = ^ux }`
unfoldable pub zigzag : ℕ → ℕ
zigzag x = let ux = x * 2 % two_64 in if is_negative_64 x then two_64 - 1 - ux else ux

unfoldable pub put_varint : ℕ → Bytes
put_varint x = put_uvarint (zigzag x)

f_varint_encode_loop : (ux : ℕ) → Acc ◌<◌ ux → Bytes
f_varint_encode_loop ux (Acc.intro _ smaller) =
    dite (dec_lt 127 ux)
      (λ more.
        bit_or (bit_and ux 0x7f % 256) 0x80
        ∷ f_varint_encode_loop (ux / 128) (smaller _ (shift_shrinks ux more)))
      (λ _. bit_and ux 0x7f % 256 ∷ [])

unfoldable pub f_varint_encode : Bytes → ℕ → Bytes
unfolding f_varint_encode_loop lt_wf dec_lt
f_varint_encode bw x = bw ++ f_varint_encode_loop (zigzag x) (lt_wf.apply (zigzag x))

unfoldable pub encode_uvarint : Bytes → ℕ → Bytes
encode_uvarint w u = w ++ put_uvarint u

unfoldable pub encode_varint : (byte_writer : Bool) → Bytes → ℕ → Bytes
encode_varint byte_writer w i = if byte_writer then f_varint_encode w i else w ++ put_varint i

unfoldable pub encode_bytes : Bytes → Bytes → Bytes
encode_bytes w bz = encode_uvarint w (length bz % two_64) ++ bz

unfoldable pub hash_len_bz : Bytes
unfolding put_uvarint
hash_len_bz = put_uvarint 32

unfoldable pub encode_32_bytes_hash : Bytes → Bytes → Bytes
unfolding hash_len_bz
encode_32_bytes_hash w bz = (w ++ hash_len_bz) ++ bz

unfoldable pub encode_bytes_slice : Bytes → Bytes
encode_bytes_slice bz = encode_bytes [] bz

pub half_shrinks : (x : ℕ) → 0 < x → x / 2 < x
half_shrinks x h = omega arith

-- the number of bits of `x`, 0 for 0
len_64_loop : (x : ℕ) → Acc ◌<◌ x → ℕ
len_64_loop x (Acc.intro _ smaller) =
    dite (dec_lt 0 x) (λ more. suc (len_64_loop (x / 2) (smaller _ (half_shrinks x more)))) (λ _. 0)

unfoldable pub len_64 : ℕ → ℕ
unfolding len_64_loop lt_wf dec_lt
len_64 x = len_64_loop x (lt_wf.apply x)

unfoldable pub encode_uvarint_size : ℕ → ℕ
encode_uvarint_size u = if u == 0 then 1 else (len_64 u + 6) / 7

unfoldable pub encode_varint_size : ℕ → ℕ
encode_varint_size i = encode_uvarint_size (zigzag i)

unfoldable pub encode_bytes_size : Bytes → ℕ
encode_bytes_size bz = encode_uvarint_size (length bz % two_64) + length bz

-- `i` bytes are read, `x` is what they gave and `s` the shift. A negative count is an overflow.
unfoldable pub uvarint_loop : Bytes → ℕ → ℕ → ℕ → ℕ × ℤ
uvarint_loop [] i x s = (0, pos 0)
uvarint_loop (b ∷ buf) i x s =
    let rest = uvarint_loop buf (i + 1) (bit_or x (bit_and b 0x7f * 2 ^ s % two_64)) (s + 7) in
    if i == 10
    then (0, negsuc i)
    else (if ltb b 0x80
        then (if (i == 9 && ltb 1 b)
            then (0, negsuc i)
            else (bit_or x (b * 2 ^ s % two_64), pos (i + 1)))
        else rest)

unfoldable pub uvarint : Bytes → ℕ × ℤ
uvarint buf = uvarint_loop buf 0 0 0

-- `x := int64(ux >> 1); if ux&1 != 0 { x = ^x }`
unfoldable pub unzigzag : ℕ → ℕ
unzigzag ux = if ux % 2 == 0 then ux / 2 else two_64 - 1 - ux / 2

unfoldable pub varint : Bytes → ℕ × ℤ
varint buf = let (ux, n) = uvarint buf in (unzigzag ux, n)

-- `if n == 0 { … } else if n < 0 { … }` on what `binary.Uvarint` or `binary.Varint` returned
unfoldable pub decode_count : ℕ × ℤ → Result (ℕ × ℕ)
decode_count (u, pos n) = if n == 0 then err Error.buffer_too_small else ok (u, n)
decode_count (u, negsuc n) = err Error.eof_decoding

unfoldable pub decode_uvarint : Bytes → Result (ℕ × ℕ)
decode_uvarint bz = decode_count (uvarint bz)

unfoldable pub decode_varint : Bytes → Result (ℕ × ℕ)
decode_varint bz = decode_count (varint bz)

-- The checks and the slice `bz[n:end]`, for a length `s` that was read from `n` bytes.
unfoldable pub slice_bytes : Bytes → ℕ → ℕ → Result (Bytes × ℕ)
slice_bytes bz s n =
    let size = s in
    let end = (n + size) % two_64 in
    if leb (two_63 - 1) s || is_negative_64 size
    then err Error.length_out_of_range
    else (if lt_int64 end n
        then err Error.length_out_of_range
        else (if lt_int64 (length bz) end
            then err Error.insufficient_bytes
            else ok (take (end - n) (drop n bz), end)))

unfoldable pub decode_bytes : Bytes → Result (Bytes × ℕ)
decode_bytes bz = do (s, n) ← decode_uvarint bz; slice_bytes bz s n
