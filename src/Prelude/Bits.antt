-- ===== src/Prelude/Bits.antt =====
-- `|` and `&` on native numbers as arithmetic: masks of low bits, and fields that do not overlap.
use Prim.Native.Nat.{
  ℕ, zero, suc, ◌+◌, ◌*◌, ◌/◌, ◌%◌, ◌^◌, ◌≤◌, ◌<◌, min, max, bit_and, bit_or, digits, bitwise,
  bit_and-bitwise, bit_or-bitwise,
}
use mathlib.Core.Path.{◌≡◌, refl, ap}
use mathlib.Core.Bool.{Bool, true, ◌&&◌}
use native.Mathlib.Omega.{arith}
use native.Mathlib.Nat.{pow-suc}
use iavl.Prelude.Tests.{◌==◌}

-- The fuel of `digits` does not matter from the first argument on.
module _ (z : ℕ → ℕ) (f : ℕ → ℕ → ℕ) where
  digits_more : (a b n m : ℕ) → a ≤ n → n ≤ m → digits z f m a b ≡ digits z f n a b
  digits_more a b zero zero h k = refl
  digits_more zero b zero (suc m) h k = refl
  digits_more (suc a) b zero (suc m) h k = absurd (omega arith)
  digits_more a b (suc n) zero h k = absurd (omega arith)
  digits_more zero b (suc n) (suc m) h k = refl
  digits_more (suc a) b (suc n) (suc m) h k =
      omega (arith, digits_more (suc a / 2) (b / 2) n m (omega arith) (omega arith))

  bitwise_halves :
      (a b : ℕ)
      → bitwise z f (suc a) b ≡ bitwise z f (suc a / 2) (b / 2) * 2 + f (suc a % 2) (b % 2)
  bitwise_halves a b =
      omega (arith, digits_more (suc a / 2) (b / 2) (suc a / 2) a (omega arith) (omega arith))

bit_or_halves : (a b : ℕ) → bit_or a b ≡ bit_or (a / 2) (b / 2) * 2 + max (a % 2) (b % 2)
bit_or_halves zero b = omega (arith, bit_or-bitwise 0 b, bit_or-bitwise 0 (b / 2))
bit_or_halves (suc a) b = omega (
  arith,
  bit_or-bitwise (suc a) b,
  bit_or-bitwise (suc a / 2) (b / 2),
  bitwise_halves (λ y. y) max a b,
)

bit_and_halves : (a b : ℕ) → bit_and a b ≡ bit_and (a / 2) (b / 2) * 2 + min (a % 2) (b % 2)
bit_and_halves zero b = omega (arith, bit_and-bitwise 0 b, bit_and-bitwise 0 (b / 2))
bit_and_halves (suc a) b = omega (
  arith,
  bit_and-bitwise (suc a) b,
  bit_and-bitwise (suc a / 2) (b / 2),
  bitwise_halves (λ y. 0) min a b,
)

bit_and-zero : (n a : ℕ) → a ≤ n → bit_and a 0 ≡ 0
bit_and-zero n zero h = refl
bit_and-zero zero (suc a) h = absurd (omega arith)
bit_and-zero (suc n) (suc a) h =
    omega (arith, bit_and_halves (suc a) 0, bit_and-zero n (suc a / 2) (omega arith))

pub bit_and_low_7 : (a : ℕ) → bit_and a 0x7f ≡ a % 128
bit_and_low_7 a =
    let b = a / 2 / 2 / 2 / 2 in
    let low_3 : bit_and b 7 ≡ b % 8 = omega (
      arith,
      bit_and_halves b 7,
      bit_and_halves (b / 2) 3,
      bit_and_halves (b / 2 / 2) 1,
      bit_and-zero (b / 2 / 2 / 2) (b / 2 / 2 / 2) (omega arith),
    ) in
    omega (
      arith,
      low_3,
      bit_and_halves a 0x7f,
      bit_and_halves (a / 2) 0x3f,
      bit_and_halves (a / 2 / 2) 0x1f,
      bit_and_halves (a / 2 / 2 / 2) 0xf,
    )

-- Fields that do not overlap: `x | y << s` is a sum when `x` fits `s` bits.
pub bit_or_disjoint : (s x y : ℕ) → x < 2 ^ s → bit_or x (y * 2 ^ s) ≡ x + y * 2 ^ s
bit_or_disjoint zero x y h = ground (arith, bit_or-bitwise 0 (y * 1))
bit_or_disjoint (suc s) x y h =
    let double : y * 2 ^ suc s ≡ 2 * (y * 2 ^ s) =
      omega (arith, ap (λ (t : ℕ). y * t) (pow-suc 2 s)) in
    rw double (
      omega (
        arith,
        pow-suc 2 s,
        bit_or_halves x (2 * (y * 2 ^ s)),
        ap (λ (t : ℕ). bit_or (x / 2) t) (halve (y * 2 ^ s)),
        bit_or_disjoint s (x / 2) y (omega (arith, pow-suc 2 s)),
      ))
  where
    halve : (t : ℕ) → 2 * t / 2 ≡ t
    halve t = omega arith

-- Facts about one byte, by evaluation.
agree_to : ℕ → (ℕ → ℕ) → (ℕ → ℕ) → Bool
agree_to zero f g = true
agree_to (suc n) f g = f n == g n && agree_to n f g

agree_to→eq : (n : ℕ) (f g : ℕ → ℕ) → agree_to n f g ≡ true → (x : ℕ) → x < n → f x ≡ g x
unfolding agree_to
agree_to→eq zero f g e x h = absurd (omega arith)
agree_to→eq (suc n) f g e x h = ground (arith, agree_to→eq n f g (ground arith) x)

pub bit_or_top : (b : ℕ) → b < 256 → bit_or b 0x80 ≡ b % 128 + 128
unfolding agree_to
bit_or_top = agree_to→eq 256 (λ b. bit_or b 0x80) (λ b. b % 128 + 128) refl
