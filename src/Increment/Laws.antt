-- ===== src/Increment/Laws.antt =====
-- internal/bytes/bytes.go: `CpIncr` on byte slices read as numbers.
use iavl.Prelude.{
  ℕ, suc, ◌+◌, ◌*◌, ◌^◌, ◌≡◌, ◌∙◌, refl, sym, ap, [], ◌∷◌, ◌++◌, Option, none, some, ltb, length,
  length-append, ok, arith, Bool-cases, inl, inr, subst,
}
use mathlib.Core.List.{reverse, reverse-cons, reverse-reverse}
use native.Mathlib.Nat.{pow-suc}
use iavl.Bytes.{Bytes, IsBytes}
use iavl.StorageKey.{big_endian}
use iavl.StorageKey.Laws.{big_endian-append}
use iavl.Increment.{increment_loop, cp_incr}

-- The number of a reversed slice.
abbrev little_endian : Bytes → ℕ
little_endian [] = 0
little_endian (b ∷ bz) = little_endian bz * 256 + b

big_endian-reverse : (bz : Bytes) → big_endian 0 (reverse bz) ≡ little_endian bz
unfolding big_endian
big_endian-reverse [] = refl
big_endian-reverse (b ∷ bz) =
    ap (big_endian 0) (reverse-cons b bz)
    ∙ big_endian-append 0 b (reverse bz)
    ∙ ap (λ n. n * 256 + b) (big_endian-reverse bz)

length-reverse : (bz : Bytes) → length (reverse bz) ≡ length bz
length-reverse [] = refl
length-reverse (b ∷ bz) =
    ap length (reverse-cons b bz)
    ∙ omega (arith, length-append (reverse bz) (b ∷ []), length-reverse bz)

abbrev Next : Bytes → Option Bytes → Type 0
Next bz none = little_endian bz + 1 ≡ 256 ^ length bz
Next bz (some r) = (length r ≡ length bz) × (little_endian r ≡ little_endian bz + 1)

Next-carry :
    (b : ℕ) (bz : Bytes) (o : Option Bytes)
    → b ≡ 255
    → Next bz o
    → Next (b ∷ bz) (elim o [ none ↦ none | some r ↦ some (0 ∷ r) ])
Next-carry b bz none e n = omega (arith, pow-suc 256 (length bz))
Next-carry b bz (some r) e (n_l, n) = (ap suc n_l, omega arith)

increment_loop-Next : (bz : Bytes) → IsBytes bz → Next bz (increment_loop bz)
unfolding increment_loop
increment_loop-Next [] h = refl
increment_loop-Next (b ∷ bz) (h_b, h) = elim (Bool-cases (ltb b 0xff)) [
  | inl e ↦ rw e (refl, omega arith)
  | inr e ↦
      let last : b ≡ 255 = ground arith in
      rw e (Next-carry b bz (increment_loop bz) last (increment_loop-Next bz h))
]

IsBytes-append : (a c : Bytes) → IsBytes a → IsBytes c → IsBytes (a ++ c)
IsBytes-append [] c h k = k
IsBytes-append (x ∷ a) c (h_x, h) k = (h_x, IsBytes-append a c h k)

IsBytes-reverse : (bz : Bytes) → IsBytes bz → IsBytes (reverse bz)
IsBytes-reverse [] h = tt
IsBytes-reverse (b ∷ bz) (h_b, h) =
    subst IsBytes (sym (reverse-cons b bz))
      (IsBytes-append (reverse bz) (b ∷ []) (IsBytes-reverse bz h) (h_b, tt))

-- What `CpIncr` says of a slice: the next one has the same length and is one more, as a number
-- with the big end first; none is said only of the largest slice of its length.
abbrev pub IsIncrementOf : Bytes → Option Bytes → Type 0
IsIncrementOf bz none = big_endian 0 bz + 1 ≡ 256 ^ length bz
IsIncrementOf bz (some r) = (length r ≡ length bz) × (big_endian 0 r ≡ big_endian 0 bz + 1)

of_reversed :
    (bz : Bytes) (o : Option Bytes)
    → Next (reverse bz) o
    → IsIncrementOf bz (elim o [ none ↦ none | some r ↦ some (reverse r) ])
of_reversed bz none n =
    let same : big_endian 0 bz ≡ little_endian (reverse bz) =
      ap (big_endian 0) (sym (reverse-reverse bz)) ∙ big_endian-reverse (reverse bz) in
    rw (same, n, length-reverse bz) refl
of_reversed bz (some r) (n_l, n) =
    let same : big_endian 0 bz ≡ little_endian (reverse bz) =
      ap (big_endian 0) (sym (reverse-reverse bz)) ∙ big_endian-reverse (reverse bz) in
    (
      length-reverse r ∙ n_l ∙ length-reverse bz,
      big_endian-reverse r ∙ n ∙ ap (λ k. k + 1) (sym same),
    )

-- `CpIncr` of a byte slice that is not empty returns the slice of the same length that is one more,
-- as a number with the big end first, or none, if the slice is the largest of its length.
pub cp_incr-IsIncrementOf :
    (b : ℕ) (bz : Bytes)
    → IsBytes (b ∷ bz)
    → (next : Option Bytes) × (cp_incr (b ∷ bz) ≡ ok next) × IsIncrementOf (b ∷ bz) next
unfolding cp_incr
cp_incr-IsIncrementOf b bz h = (
  elim (increment_loop (reverse (b ∷ bz))) [ none ↦ none | some r ↦ some (reverse r) ],
  refl,
  of_reversed (b ∷ bz) (increment_loop (reverse (b ∷ bz)))
      (increment_loop-Next (reverse (b ∷ bz)) (IsBytes-reverse (b ∷ bz) h)),
)
