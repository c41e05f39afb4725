-- ===== src/Encoding/Words.antt =====
-- The loops of `put_uvarint`, `f_varint_encode` and `len_64` by their equations, and zigzag.
use iavl.Prelude.{
  ℕ, ◌+◌, ◌/◌, ◌%◌, ◌<◌, [], ◌∷◌, ◌++◌, Bool, true, false, ◌≡◌, refl, ap, arith, suc, ◌⊎◌, inl, inr,
}
use iavl.Prelude.Words.{two_64}
use iavl.Prelude.Bits.{bit_and_low_7, bit_or_top}
use iavl.Prelude.Order.{lt_wf}
use iavl.Bytes.{Bytes}
use iavl.Encoding.{
  put_uvarint, put_uvarint_loop, f_varint_encode, f_varint_encode_loop, put_varint, encode_varint,
  zigzag, unzigzag, len_64, len_64_loop, shift_shrinks,
}
use mathlib.Core.WellFounded
use mathlib.Core.WellFounded.{Acc, WellFounded}
use Prim.Native.Nat.{bit_and, bit_or}

-- The groups of seven bits, lowest first, with the top bit set on all but the last.
put_loop_small : (x : ℕ) (w : Acc ◌<◌ x) → x < 128 → put_uvarint_loop x w ≡ x ∷ []
unfolding put_uvarint_loop
put_loop_small x (Acc.intro _ smaller) h = grind arith

put_loop_any : (x : ℕ) (v w : Acc ◌<◌ x) → put_uvarint_loop x v ≡ put_uvarint_loop x w
unfolding put_uvarint_loop
put_loop_any x (Acc.intro _ s) (Acc.intro _ t) = grind (
  arith,
  λ (p : x / 128 < x) (q : x / 128 < x). put_loop_any (x / 128) (s (x / 128) p) (t (x / 128) q),
)

pub put_uvarint_small : (x : ℕ) → x < 128 → put_uvarint x ≡ x ∷ []
unfolding put_uvarint
put_uvarint_small x h = put_loop_small x (lt_wf.apply x) h

put_loop_more :
    (x : ℕ) (w : Acc ◌<◌ x)
    → 127 < x
    → put_uvarint_loop x w ≡ (x % 128 + 128) ∷ put_uvarint_loop (x / 128) (lt_wf.apply (x / 128))
unfolding put_uvarint_loop
put_loop_more x (Acc.intro _ s) h =
    let top : bit_or (x % 256) 0x80 ≡ x % 128 + 128 =
      omega (arith, bit_or_top (x % 256) (omega arith)) in
    grind (
      arith,
      top,
      λ (p : x / 128 < x). put_loop_any (x / 128) (s (x / 128) p) (lt_wf.apply (x / 128)),
    )

pub put_uvarint_more : (x : ℕ) → 127 < x → put_uvarint x ≡ (x % 128 + 128) ∷ put_uvarint (x / 128)
unfolding put_uvarint
put_uvarint_more x h = put_loop_more x (lt_wf.apply x) h

-- The loop that writes byte by byte writes the same bytes.
f_varint_loop-put : (x : ℕ) (v w : Acc ◌<◌ x) → f_varint_encode_loop x v ≡ put_uvarint_loop x w
unfolding f_varint_encode_loop put_uvarint_loop
f_varint_loop-put x (Acc.intro _ s) (Acc.intro _ t) =
    let low : bit_and x 0x7f % 256 ≡ x % 128 = omega (arith, bit_and_low_7 x) in
    let top : bit_or (x % 256) 0x80 ≡ bit_or (bit_and x 0x7f % 256) 0x80 = omega (
      arith,
      low,
      bit_or_top (x % 256) (omega arith),
      bit_or_top (bit_and x 0x7f % 256) (omega arith),
    ) in
    grind (
      arith,
      low,
      top,
      λ (p : x / 128 < x) (q : x / 128 < x).
          f_varint_loop-put (x / 128) (s (x / 128) p) (t (x / 128) q),
    )

-- An `io.ByteWriter` and any other writer get the same bytes.
pub encode_varint-put :
    (byte_writer : Bool) (w : Bytes) (i : ℕ)
    → encode_varint byte_writer w i ≡ w ++ put_uvarint (zigzag i)
unfolding encode_varint f_varint_encode put_varint put_uvarint
encode_varint-put true w i =
    ap (λ t. w ++ t)
      (f_varint_loop-put (zigzag i) (lt_wf.apply (zigzag i)) (lt_wf.apply (zigzag i)))
encode_varint-put false w i = refl

-- Induction along the groups.
pub groups_induction {ℓ} :
    (P : ℕ → Type ℓ)
    → ((x : ℕ) → x < 128 → P x)
    → ((x : ℕ) → 127 < x → P (x / 128) → P x)
    → (x : ℕ) → P x
groups_induction P small more x = WellFounded.induction lt_wf {C = P} x λ n ih. elim (le_or_lt n) [
  | inl h ↦ small n h
  | inr h ↦ more n h (ih (n / 128) (shift_shrinks n h))
]
  where
    le_or_lt : (n : ℕ) → (n < 128) ⊎ (127 < n)
    le_or_lt n = omega arith

len_loop_any : (x : ℕ) (v w : Acc ◌<◌ x) → len_64_loop x v ≡ len_64_loop x w
unfolding len_64_loop
len_loop_any x (Acc.intro _ s) (Acc.intro _ t) =
    grind
      (arith, λ (p : x / 2 < x) (q : x / 2 < x). len_loop_any (x / 2) (s (x / 2) p) (t (x / 2) q))

len_loop_more :
    (x : ℕ) (w : Acc ◌<◌ x)
    → 0 < x
    → len_64_loop x w ≡ suc (len_64_loop (x / 2) (lt_wf.apply (x / 2)))
unfolding len_64_loop
len_loop_more x (Acc.intro _ s) h =
    grind (arith, λ (p : x / 2 < x). len_loop_any (x / 2) (s (x / 2) p) (lt_wf.apply (x / 2)))

pub len_64_more : (x : ℕ) → 0 < x → len_64 x ≡ suc (len_64 (x / 2))
unfolding len_64
len_64_more x h = len_loop_more x (lt_wf.apply x) h

pub len_64_zero : len_64 0 ≡ 0
unfolding len_64
len_64_zero = refl

-- The zigzag map of an `int64` is a `uint64`, and has an inverse.
pub zigzag-lt : (i : ℕ) → i < two_64 → zigzag i < two_64
unfolding zigzag
zigzag-lt i h = ground arith

pub unzigzag-zigzag : (i : ℕ) → i < two_64 → unzigzag (zigzag i) ≡ i
unfolding zigzag unzigzag
unzigzag-zigzag i h = ground arith

pub unzigzag-lt : (u : ℕ) → u < two_64 → unzigzag u < two_64
unfolding unzigzag
unzigzag-lt u h = ground arith
