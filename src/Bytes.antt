-- ===== src/Bytes.antt =====
-- Byte slices, Go's `bytes.Compare` and `bytes.Equal`, and maps with byte slices for keys.
pub mod Order
pub mod Map
use iavl.Prelude.{ℕ, ◌<◌, List, [], ◌∷◌, All, Bool, true, false, compare, Ordering}

abbrev pub Bytes : Type 0
Bytes = List ℕ

abbrev pub IsBytes : Bytes → Type 0
IsBytes = All (λ b. b < 0x100)

-- `bytes.Compare`: lexicographic
unfoldable pub compare_bytes : Bytes → Bytes → Ordering
compare_bytes [] [] = Ordering.eq
compare_bytes [] (y ∷ ys) = Ordering.lt
compare_bytes (x ∷ xs) [] = Ordering.gt
compare_bytes (x ∷ xs) (y ∷ ys) = elim (compare x y) [
  | Ordering.lt ↦ Ordering.lt
  | Ordering.gt ↦ Ordering.gt
  | Ordering.eq ↦ compare_bytes xs ys
]

-- `bytes.Compare(a, b) < 0`
abbrev pub lt_bytes : Bytes → Bytes → Bool
lt_bytes a b = elim (compare_bytes a b) [ Ordering.lt ↦ true | _ ↦ false ]

-- `bytes.Equal`
abbrev pub equal_bytes : Bytes → Bytes → Bool
equal_bytes a b = elim (compare_bytes a b) [ Ordering.eq ↦ true | _ ↦ false ]
