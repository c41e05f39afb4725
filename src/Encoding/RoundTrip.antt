-- ===== src/Encoding/RoundTrip.antt =====
-- internal/encoding/encoding.go: the decoders on what the encoders write.
use iavl.Prelude.{
  ℕ, ◌+◌, ◌-◌, ◌*◌, ◌/◌, ◌%◌, ◌^◌, ◌≤◌, ◌<◌, [], ◌++◌, Bool, ◌≡◌, ap, ◌∙◌, length, length-append,
  arith, append_assoc, take, drop, take-append, drop-append, ok, ◌⊎◌, inl, inr,
}
use iavl.Prelude.Words.{pos, two_63, two_64}
use iavl.Prelude.Bits.{bit_and_low_7, bit_or_disjoint}
use iavl.Bytes.{Bytes}
use iavl.Encoding.{
  put_uvarint, encode_uvarint, encode_varint, encode_bytes, uvarint, uvarint_loop, varint,
  decode_uvarint, decode_varint, decode_bytes, decode_count, slice_bytes, zigzag,
}
use iavl.Encoding.Words.{
  put_uvarint_small, put_uvarint_more, encode_varint-put, groups_induction, zigzag-lt,
  unzigzag-zigzag,
}
use native.Mathlib.Nat.{pow-le-pow_right, mul-le-mul, mul-le-mul_right, div-add-mod}
use native.Mathlib.Numerals.{towards_suc}
use Prim.Native.Nat.{bit_and, bit_or}

pub pow-two-add_7 : (s : ℕ) → 2 ^ (s + 7) ≡ 128 * 2 ^ s
pow-two-add_7 s = simp towards_suc (omega arith)

-- A group that is not the last stands in the first nine bytes.
early_group : (y i : ℕ) → i ≤ 9 → 127 < y → y * 2 ^ (7 * i) < two_64 → i ≤ 8
early_group y i h more fits = elim (cases i) [
  | inl e ↦ e
  | inr late ↦ absurd (
      omega (
        arith,
        mul-le-mul more (pow-le-pow_right {n = 2} (omega arith) {i = 63} {j = 7 * i} (omega arith)),
      ))
]
  where
    cases : (i : ℕ) → (i ≤ 8) ⊎ (9 ≤ i)
    cases i = omega arith

-- The tenth byte holds one bit.
last_group : (y : ℕ) → y * 2 ^ 63 < two_64 → y ≤ 1
last_group y h = omega arith

split_groups : (y s : ℕ) → y % 128 * 2 ^ s + y / 128 * 2 ^ (s + 7) ≡ y * 2 ^ s
split_groups y s = omega (
  arith,
  ap (λ (t : ℕ). t * 2 ^ s) (div-add-mod y 128),
  ap (λ (t : ℕ). y / 128 * t) (pow-two-add_7 s),
)

group_fits : (x y s : ℕ) → x < 2 ^ s → x + y % 128 * 2 ^ s < 2 ^ (s + 7)
group_fits x y s h =
    omega (arith, pow-two-add_7 s, mul-le-mul_right {m = y % 128} {n = 127} (2 ^ s) (omega arith))

abbrev Reads : ℕ → Type 0
Reads y =
    (i x : ℕ) (rest : Bytes)
    → i ≤ 9
    → x < 2 ^ (7 * i)
    → x + y * 2 ^ (7 * i) < two_64
    → uvarint_loop (put_uvarint y ++ rest) i x (7 * i)
      ≡ (x + y * 2 ^ (7 * i), pos (i + length (put_uvarint y)))

Reads-small : (y : ℕ) → y < 128 → Reads y
unfolding uvarint_loop
Reads-small y h i x rest hi hx fits = rw (put_uvarint_small y h) (
    ground (
      arith,
      last_group y,
      ap (λ (t : ℕ). 2 ^ (7 * t)) {x = i} {y = 9},
      bit_or_disjoint (7 * i) x y hx,
    ))

group_value :
    (x y s : ℕ)
    → x < 2 ^ s
    → x + y * 2 ^ s < two_64
    → bit_or x (bit_and (y % 128 + 128) 0x7f * 2 ^ s % two_64) ≡ x + y % 128 * 2 ^ s
group_value x y s h fits =
    let low : bit_and (y % 128 + 128) 0x7f ≡ y % 128 =
      omega (arith, bit_and_low_7 (y % 128 + 128)) in
    let small : y % 128 * 2 ^ s % two_64 ≡ y % 128 * 2 ^ s =
      omega (arith, mul-le-mul_right {m = y % 128} {n = y} (2 ^ s) (omega arith)) in
    rw (low, small) (bit_or_disjoint s x (y % 128) h)

Reads-more : (y : ℕ) → 127 < y → Reads (y / 128) → Reads y
unfolding uvarint_loop
Reads-more y h ih i x rest hi hx fits =
    let s = 7 * i in
    let early : i ≤ 8 = early_group y i hi h (omega arith) in
    let x' = x + y % 128 * 2 ^ s in
    let next : 7 * (i + 1) ≡ 7 * i + 7 = omega arith in
    let rec =
      ih (i + 1) x' rest (omega arith) (rw next (group_fits x y s hx))
        (rw next (omega (arith, split_groups y s))) in
    rw (put_uvarint_more y h)
      (ground (arith, group_value x y s hx fits, rw next at rec, split_groups y s))

pub uvarint-put_uvarint :
    (u : ℕ) (rest : Bytes)
    → u < two_64
    → uvarint (put_uvarint u ++ rest) ≡ (u, pos (length (put_uvarint u)))
unfolding uvarint
uvarint-put_uvarint u rest h = ground (
  arith,
  groups_induction Reads Reads-small Reads-more u 0 0 rest (omega arith) (omega arith)
      (omega arith),
)

pub put_uvarint_nonempty : (u : ℕ) → 0 < length (put_uvarint u)
put_uvarint_nonempty =
    groups_induction (λ u. 0 < length (put_uvarint u))
      (λ u h. rw (put_uvarint_small u h) (omega arith))
      (λ u h ih. rw (put_uvarint_more u h) (omega arith))

decode_uvarint-put_uvarint :
    (u : ℕ) (rest : Bytes)
    → u < two_64
    → decode_uvarint (put_uvarint u ++ rest) ≡ ok (u, length (put_uvarint u))
unfolding decode_uvarint decode_count
decode_uvarint-put_uvarint u rest h =
    ground (arith, uvarint-put_uvarint u rest h, put_uvarint_nonempty u)

-- What is written to a buffer is appended to it.
pub encode_bytes-append : (w bz : Bytes) → encode_bytes w bz ≡ w ++ encode_bytes [] bz
unfolding encode_bytes encode_uvarint
encode_bytes-append w bz = append_assoc w _ bz

-- A `uint64` that was encoded is decoded again, with the number of its bytes, whatever follows.
pub decode_uvarint-encode_uvarint :
    (u : ℕ) (rest : Bytes)
    → u < two_64
    → decode_uvarint (encode_uvarint [] u ++ rest) ≡ ok (u, length (encode_uvarint [] u))
unfolding encode_uvarint
decode_uvarint-encode_uvarint = decode_uvarint-put_uvarint

-- An `int64` that was encoded through any writer is decoded again, with the number of its bytes,
-- whatever follows.
pub decode_varint-encode_varint :
    (byte_writer : Bool) (i : ℕ) (rest : Bytes)
    → i < two_64
    → decode_varint (encode_varint byte_writer [] i ++ rest)
      ≡ ok (i, length (encode_varint byte_writer [] i))
unfolding decode_varint varint decode_count
decode_varint-encode_varint byte_writer i rest h = rw (encode_varint-put byte_writer [] i) (
    ground (
      arith,
      uvarint-put_uvarint (zigzag i) rest (zigzag-lt i h),
      put_uvarint_nonempty (zigzag i),
      unzigzag-zigzag i h,
    ))

slice_bytes-in :
    (bz : Bytes) (s n : ℕ)
    → n + s ≤ length bz
    → 0 < n
    → length bz < two_63
    → slice_bytes bz s n ≡ ok (take s (drop n bz), n + s)
unfolding slice_bytes
slice_bytes-in bz s n h k fits =
    let same : (n + s) % two_64 ≡ n + s = omega arith in
    let size : n + s - n ≡ s = omega arith in rw (same, size) (ground arith)

-- A byte slice that was encoded is decoded again, with the number of its bytes, whatever follows,
-- if the whole input is as long as a Go slice can be.
pub decode_bytes-encode_bytes :
    (bz rest : Bytes)
    → length (encode_bytes [] bz ++ rest) < two_63
    → decode_bytes (encode_bytes [] bz ++ rest) ≡ ok (bz, length (encode_bytes [] bz))
unfolding decode_bytes encode_bytes encode_uvarint
decode_bytes-encode_bytes bz rest fits =
    let front = put_uvarint (length bz % two_64) in
    let all : Bytes = front ++ (bz ++ rest) in
    let e_1 = length-append front bz in
    let e_2 = length-append (front ++ bz) rest in
    let e_3 = length-append front (bz ++ rest) in
    let e_4 = length-append bz rest in
    let small : length bz % two_64 ≡ length bz = omega arith in
    let slice =
      slice_bytes-in all (length bz) (length front) (omega arith)
        (put_uvarint_nonempty (length bz % two_64)) (omega arith) in
    let cut : take (length bz) (drop (length front) all) ≡ bz =
      ap (take (length bz)) (drop-append front (bz ++ rest)) ∙ take-append bz rest in
    rw
      (
        append_assoc front bz rest,
        decode_uvarint-put_uvarint (length bz % two_64) (bz ++ rest) (omega arith),
      )
      (ground (arith, small, slice, cut))
