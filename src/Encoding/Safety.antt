-- ===== src/Encoding/Safety.antt =====
-- internal/encoding/encoding.go: the decoders on any input.
use iavl.Prelude.{
  ℕ, ◌+◌, ◌-◌, ◌*◌, ◌%◌, ◌^◌, ◌≤◌, ◌<◌, [], ◌∷◌, false, ◌≡◌, refl, ap, ltb, ◌==◌, length, arith,
  take, drop, ok, ◌⊎◌, inl, inr, ◌&&◌, >>=-eq-ok, Bool-cases,
}
use iavl.Prelude.Words.{ℤ, pos, negsuc, two_63, two_64}
use iavl.Prelude.Bits.{bit_and_low_7, bit_or_disjoint}
use iavl.Bytes.{Bytes}
use iavl.Encoding.{
  uvarint, uvarint_loop, varint, decode_count, slice_bytes, unzigzag, decode_uvarint, decode_varint,
  decode_bytes,
}
use iavl.Encoding.Words.{unzigzag-lt}
use iavl.Encoding.RoundTrip.{pow-two-add_7}
use native.Mathlib.Nat.{pow-le-pow_right, mul-le-mul_right}
use Prim.Native.Nat.{bit_and, bit_or}

-- One group of seven bits, added above `s` bits.
group_bound :
    (x b s : ℕ)
    → x < 2 ^ s
    → 2 ^ (s + 7) ≤ two_64
    → bit_or x (bit_and b 0x7f * 2 ^ s % two_64) < 2 ^ (s + 7)
group_bound x b s h fits =
    let low = bit_and_low_7 b in
    let small = mul-le-mul_right {m = b % 128} {n = 127} (2 ^ s) (omega arith) in
    let room = pow-two-add_7 s in
    let whole : b % 128 * 2 ^ s % two_64 ≡ b % 128 * 2 ^ s = omega arith in
    rw (low, whole, bit_or_disjoint s x (b % 128) h) (omega arith)

-- The result of the loop, with `i` bytes read before it: nothing was found (0 bytes or a negative
-- number of them), or a `uint64` that took at most ten of the bytes that are there.
abbrev Found : ℕ → Bytes → ℕ × ℤ → Type 0
Found i buf (u, pos n) = (n ≡ 0) ⊎ ((u < two_64) × (i < n) × (n ≤ i + length buf) × (n ≤ 10))
Found i buf (u, negsuc n) = Unit

last_bound :
    (x b i : ℕ)
    → x < 2 ^ (7 * i)
    → b < 128
    → i ≤ 9
    → (i == 9 && ltb 1 b) ≡ false
    → bit_or x (b * 2 ^ (7 * i) % two_64) < two_64
last_bound x b i h hb hi last = elim (cases i hi) [
  | inl early ↦
      let p = pow-le-pow_right {n = 2} (omega arith) {i = 7 * i} {j = 56} (omega arith) in
      let small = mul-le-mul_right {m = b} {n = 127} (2 ^ (7 * i)) (omega arith) in
      let whole : b * 2 ^ (7 * i) % two_64 ≡ b * 2 ^ (7 * i) = omega arith in
      rw (whole, bit_or_disjoint (7 * i) x b h) (omega arith)
  | inr nine ↦
      let one : b ≤ 1 = ground arith in
      let p : 2 ^ (7 * i) ≡ 2 ^ 63 = ap (λ (t : ℕ). 2 ^ (7 * t)) nine in
      let prod : b * 2 ^ (7 * i) ≡ b * 2 ^ 63 = ap (λ (t : ℕ). b * t) p in
      let whole : b * 2 ^ (7 * i) % two_64 ≡ b * 2 ^ (7 * i) = omega arith in
      rw (whole, bit_or_disjoint (7 * i) x b h) (omega arith)
]
  where
    cases : (i : ℕ) → i ≤ 9 → (i ≤ 8) ⊎ (i ≡ 9)
    cases i h = omega arith

Found-cons : (i b : ℕ) (buf : Bytes) (r : ℕ × ℤ) → Found (i + 1) buf r → Found i (b ∷ buf) r
Found-cons i b buf (u, pos n) (inl e) = inl e
Found-cons i b buf (u, pos n) (inr h) = inr (omega arith)
Found-cons i b buf (u, negsuc n) h = tt

next_bound :
    (i x b : ℕ)
    → (i ≤ 9 → x < 2 ^ (7 * i))
    → i + 1 ≤ 9
    → bit_or x (bit_and b 0x7f * 2 ^ (7 * i) % two_64) < 2 ^ (7 * (i + 1))
next_bound i x b h k =
    let next : 7 * (i + 1) ≡ 7 * i + 7 = omega arith in
    let p = pow-le-pow_right {n = 2} (omega arith) {i = 7 * i + 7} {j = 63} (omega arith) in
    rw next (group_bound x b (7 * i) (h (omega arith)) (omega arith))

loop-Found :
    (buf : Bytes) (i x : ℕ)
    → (i ≤ 9 → x < 2 ^ (7 * i))
    → i ≤ 10
    → Found i buf (uvarint_loop buf i x (7 * i))
unfolding uvarint_loop
loop-Found [] i x h k = inl refl
loop-Found (b ∷ buf) i x h k = elim (Bool-cases (i == 10)) [
  | inl e ↦ rw e tt
  | inr e ↦ rw e (elim (Bool-cases (ltb b 0x80)) [
    | inl c ↦ rw c (elim (Bool-cases (i == 9 && ltb 1 b)) [
      | inl d ↦ rw d tt
      | inr d ↦
          let hi : i ≤ 9 = ground arith in
          let hb : b < 128 = ground arith in
          rw d (inr (last_bound x b i (h hi) hb hi d, omega arith, omega arith, omega arith))
    ])
    | inr c ↦ rw c (
        Found-cons i b buf _
          (rw next at (loop-Found buf (i + 1) _ (next_bound i x b h) (ground arith))))
  ])
]
  where
    next : 7 * (i + 1) ≡ 7 * i + 7
    next = omega arith

Found-ok :
    (bz : Bytes) (r : ℕ × ℤ) (u n : ℕ)
    → Found 0 bz r
    → decode_count r ≡ ok (u, n)
    → (u < two_64) × (0 < n) × (n ≤ length bz) × (n ≤ 10)
unfolding decode_count
Found-ok bz (v, pos m) u n f e = ground arith
Found-ok bz (v, negsuc m) u n f e = cc

uvarint-Found : (bz : Bytes) → Found 0 bz (uvarint bz)
unfolding uvarint
uvarint-Found bz = loop-Found bz 0 0 (λ h. omega arith) (omega arith)

-- On any input, a successful `DecodeUvarint` returns a `uint64` and a count of bytes that is
-- between 1 and 10 and within the input.
pub decode_uvarint_safe :
    (bz : Bytes) (u n : ℕ)
    → decode_uvarint bz ≡ ok (u, n)
    → (u < two_64) × (0 < n) × (n ≤ length bz) × (n ≤ 10)
unfolding decode_uvarint
decode_uvarint_safe bz u n e = Found-ok bz (uvarint bz) u n (uvarint-Found bz) e

-- On any input, a successful `DecodeVarint` returns an `int64` and a count of bytes that is
-- between 1 and 10 and within the input.
pub decode_varint_safe :
    (bz : Bytes) (i n : ℕ)
    → decode_varint bz ≡ ok (i, n)
    → (i < two_64) × (0 < n) × (n ≤ length bz) × (n ≤ 10)
unfolding decode_varint varint
decode_varint_safe bz i n e = varint_ok (uvarint bz) (uvarint-Found bz) e
  where
    varint_ok :
        (r : ℕ × ℤ)
        → Found 0 bz r
        → decode_count (unzigzag r.0, r.1) ≡ ok (i, n)
        → (i < two_64) × (0 < n) × (n ≤ length bz) × (n ≤ 10)
    varint_ok (u, pos m) f e = unfold decode_count in ground (arith, unzigzag-lt u)
    varint_ok (u, negsuc m) f e = unfold decode_count in cc

slice_bytes_safe :
    (bz : Bytes) (s n : ℕ) (v : Bytes) (end : ℕ)
    → length bz < two_63
    → n ≤ 10
    → slice_bytes bz s n ≡ ok (v, end)
    → (n ≤ end) × (end ≤ length bz) × (v ≡ take (end - n) (drop n bz))
unfolding slice_bytes
slice_bytes_safe bz s n v end fits k e = ground arith

-- On any input as long as a Go slice can be, a successful `DecodeBytes` returns the slice of the
-- input from some position behind its first byte up to the returned end, and both positions lie
-- within the input.
pub decode_bytes_safe :
    (bz v : Bytes) (end : ℕ)
    → length bz < two_63
    → decode_bytes bz ≡ ok (v, end)
    → (n : ℕ) × (0 < n) × (n ≤ end) × (end ≤ length bz) × (v ≡ take (end - n) (drop n bz))
unfolding decode_bytes
decode_bytes_safe bz v end fits e =
    let ((s, n), read, rest) = >>=-eq-ok (decode_uvarint bz) (λ p. slice_bytes bz p.0 p.1) e in
    let h = decode_uvarint_safe bz s n read in
    let (low, high, slice) = slice_bytes_safe bz s n v end fits h.3 rest in
    (n, h.1, low, high, slice)
