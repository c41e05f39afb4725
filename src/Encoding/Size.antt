-- ===== src/Encoding/Size.antt =====
-- internal/encoding/encoding.go: the size functions beside the encoders.
use iavl.Prelude.{
  ℕ, zero, suc, ◌+◌, ◌/◌, ◌^◌, ◌≤◌, ◌<◌, ◌++◌, Bool, ◌≡◌, ap, length, length-append, arith, ◌%◌,
}
use iavl.Prelude.Words.{two_64}
use iavl.Bytes.{Bytes}
use iavl.Encoding.{
  put_uvarint, encode_uvarint, encode_varint, encode_bytes, encode_uvarint_size, encode_varint_size,
  encode_bytes_size, len_64, zigzag,
}
use iavl.Encoding.Words.{
  put_uvarint_small, put_uvarint_more, encode_varint-put, groups_induction, len_64_more,
  len_64_zero,
}
use native.Mathlib.Nat.{pow-suc}

len_64-le : (k x : ℕ) → x < 2 ^ k → len_64 x ≤ k
len_64-le zero zero h = omega (arith, len_64_zero)
len_64-le zero (suc x) h = absurd (omega arith)
len_64-le (suc k) zero h = omega (arith, len_64_zero)
len_64-le (suc k) (suc x) h =
    omega (arith, len_64_more (suc x), len_64-le k (suc x / 2) (omega (arith, pow-suc 2 k)))

len_64_group : (x : ℕ) → 127 < x → len_64 x ≡ len_64 (x / 128) + 7
len_64_group x h =
    let b = x / 2 / 2 / 2 / 2 in
    let low : len_64 b ≡ len_64 (b / 2 / 2 / 2) + 3 =
      omega (arith, len_64_more b, len_64_more (b / 2), len_64_more (b / 2 / 2)) in
    let same : b / 2 / 2 / 2 ≡ x / 128 = omega arith in
    omega (
      arith,
      low,
      ap len_64 same,
      len_64_more x,
      len_64_more (x / 2),
      len_64_more (x / 2 / 2),
      len_64_more (x / 2 / 2 / 2),
    )

pub length-put_uvarint : (u : ℕ) → length (put_uvarint u) ≡ encode_uvarint_size u
unfolding encode_uvarint_size
length-put_uvarint =
    groups_induction (λ u. length (put_uvarint u) ≡ encode_uvarint_size u)
      (λ u h. rw (put_uvarint_small u h) (ground (arith, len_64-le 7 u, len_64_more u)))
      (λ u h ih. rw (put_uvarint_more u h) (ground (arith, ih, len_64_group u h)))

-- Writing an integer as a varint, through either kind of writer, adds exactly the number of bytes
-- that `EncodeVarintSize` announces.
pub length-encode_varint :
    (byte_writer : Bool) (w : Bytes) (i : ℕ)
    → length (encode_varint byte_writer w i) ≡ length w + encode_varint_size i
unfolding encode_varint_size
length-encode_varint byte_writer w i =
    rw (encode_varint-put byte_writer w i)
      (omega (arith, length-append w (put_uvarint (zigzag i)), length-put_uvarint (zigzag i)))

-- Writing a byte slice with its length in front adds exactly the number of bytes that
-- `EncodeBytesSize` announces.
pub length-encode_bytes :
    (w bz : Bytes) → length (encode_bytes w bz) ≡ length w + encode_bytes_size bz
unfolding encode_bytes encode_uvarint encode_bytes_size
length-encode_bytes w bz =
    let n = length bz % two_64 in
    omega (
      arith,
      length-append (w ++ put_uvarint n) bz,
      length-append w (put_uvarint n),
      length-put_uvarint n,
    )
