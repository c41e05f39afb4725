-- ===== src/Increment.antt =====
-- internal/bytes/bytes.go: `CpIncr`, the next byte slice of the same length.
-- The loop runs from the last byte to the first, here along the reversed slice.
pub mod Laws
use iavl.Prelude.{ℕ, ◌+◌, [], ◌∷◌, Option, none, some, ltb, if◌then◌else◌, Result, ok, panic}
use mathlib.Core.List.{reverse}
use iavl.Bytes.{Bytes}

-- None on overflow.
unfoldable pub increment_loop : Bytes → Option Bytes
increment_loop [] = none
increment_loop (b ∷ bz) =
    let rest = increment_loop bz in
    if ltb b 0xff then some ((b + 1) ∷ bz) else elim rest [ none ↦ none | some r ↦ some (0 ∷ r) ]

unfoldable pub cp_incr : Bytes → Result (Option Bytes)
unfolding increment_loop
cp_incr [] = panic
cp_incr (b ∷ bz) =
    ok (elim (increment_loop (reverse (b ∷ bz))) [ none ↦ none | some r ↦ some (reverse r) ])
