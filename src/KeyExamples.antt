-- ===== src/KeyExamples.antt =====
-- The theorems on typed keys and on the next byte slice at concrete values, and runs of the code.
use iavl.Prelude.{◌≡◌, refl, [], ◌∷◌, true, false, Option, some, ok, arith}
use iavl.Bytes.{Bytes}
use iavl.Increment.{cp_incr}
use iavl.Increment.Laws.{IsIncrementOf, cp_incr-IsIncrementOf}
use iavl.KeyFormat.{KeyFormat, new_key_format, key_bytes}
use iavl.PrefixFormatter.{new_fast_prefix_formatter, format_key, scan_key}
use iavl.PrefixFormatter.Laws.{format_key-key_bytes}

cp_incr_run : cp_incr (1 ∷ 0xff ∷ []) ≡ ok (some (2 ∷ 0 ∷ []))
unfolding cp_incr
cp_incr_run = refl

cp_incr-IsIncrementOf_example :
    (next : Option Bytes) × (cp_incr (1 ∷ 0xff ∷ []) ≡ ok next) × IsIncrementOf (1 ∷ 0xff ∷ []) next
cp_incr-IsIncrementOf_example = cp_incr-IsIncrementOf 1 (0xff ∷ []) (omega arith, (omega arith, tt))

abbrev two_bytes : KeyFormat
two_bytes = record { prefix = 115; layout = 2 ∷ []; length = 3; unbounded = false }

two_bytes-made : new_key_format 115 (2 ∷ []) ≡ ok two_bytes
unfolding new_key_format
two_bytes-made = refl

format_key-key_bytes_example :
    (key_bytes two_bytes ((7 ∷ 8 ∷ []) ∷ [])
      ≡ ok (format_key (new_fast_prefix_formatter 115 2) (7 ∷ 8 ∷ [])))
    × (scan_key
          (new_fast_prefix_formatter 115 2)
          (format_key (new_fast_prefix_formatter 115 2) (7 ∷ 8 ∷ []))
        ≡ ok (7 ∷ 8 ∷ []))
format_key-key_bytes_example = format_key-key_bytes 115 1 two_bytes (7 ∷ 8 ∷ []) two_bytes-made refl

abbrev numbered : KeyFormat
numbered = record { prefix = 102; layout = 8 ∷ 0 ∷ []; length = 9; unbounded = true }
