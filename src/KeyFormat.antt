-- ===== src/KeyFormat.antt =====
-- keyformat/key_format.go: database keys of a prefix byte and segments of fixed widths, the last of
-- which may be unbounded (width 0).
-- Widths are not negative, and no sum of widths and lengths overflows an `int`. A nil segment is an
-- empty one.
pub mod Join
pub mod RoundTrip
use iavl.Prelude.{
  ℕ, zero, suc, ◌+◌, ◌-◌, List, [], ◌∷◌, ◌++◌, Bool, true, false, ◌&&◌, ◌||◌, not, ltb, ◌==◌,
  if◌then◌else◌, length, take, drop, replicate, Result, ok, panic, ◌>>=◌,
}
use iavl.Bytes.{Bytes}

pub record KeyFormat : Type 0 where
  pub layout : List ℕ
  pub length : ℕ
  pub prefix : ℕ
  pub unbounded : Bool

-- the loop over the layout: the total length, or a panic on a 0 before the last place
unfoldable pub layout_length : List ℕ → ℕ → Result ℕ
layout_length [] total = ok total
layout_length (l ∷ layout) total =
    let rest = layout_length layout (total + l) in
    if l == 0 && not (length layout == 0) then panic else rest

-- `len(layout) > 0 && layout[len(layout)-1] == 0`
unfoldable pub last_is_zero : List ℕ → Bool
last_is_zero [] = false
last_is_zero (l ∷ []) = l == 0
last_is_zero (l ∷ k ∷ layout) = last_is_zero (k ∷ layout)

unfoldable pub new_key_format : ℕ → List ℕ → Result KeyFormat
unfolding layout_length last_is_zero
new_key_format prefix layout = do
  total ← layout_length layout 1
  ok (record { prefix = prefix; layout = layout; length = total; unbounded = last_is_zero layout })

-- `for i := range segments { keyLen += kf.layout[i] }`
unfoldable pub used_length : List ℕ → List Bytes → ℕ → ℕ
used_length layout [] total = total
used_length [] (s ∷ segments) total = total
used_length (l ∷ layout) (s ∷ segments) total = used_length layout segments (total + l)

-- `len(segments[len(segments)-1])`, 0 if there is none
unfoldable pub last_length : List Bytes → ℕ
last_length [] = 0
last_length (s ∷ []) = length s
last_length (s ∷ t ∷ segments) = last_length (t ∷ segments)

unfoldable pub key_length : KeyFormat → List Bytes → ℕ
unfolding used_length last_length
key_length kf segments =
    let key_len =
      if ltb (length segments) (length kf.layout)
      then used_length kf.layout segments 1
      else kf.length in
    if kf.unbounded then key_len + last_length segments else key_len

-- `copy(key[n-len(s):n], s)`, which panics past the end of the key
unfoldable pub copy_segment : Bytes → ℕ → Bytes → Result Bytes
copy_segment key n s =
    if ltb (length key) n then panic else ok (take (n - length s) key ++ (s ++ drop n key))

-- the loop over the segments: the key and the position behind the last segment
unfoldable pub put_segments : List ℕ → List Bytes → Bytes → ℕ → Result (Bytes × ℕ)
unfolding copy_segment
put_segments layout [] key n = ok (key, n)
put_segments [] (s ∷ segments) key n = panic
put_segments (zero ∷ layout) (s ∷ segments) key n = do
  key ← copy_segment key (n + length s) s
  put_segments layout segments key (n + length s)
put_segments (suc l ∷ layout) (s ∷ segments) key n =
    if ltb (suc l) (length s)
    then panic
    else (do key ← copy_segment key (n + suc l) s; put_segments layout segments key (n + suc l))

unfoldable pub key_bytes : KeyFormat → List Bytes → Result Bytes
unfolding put_segments
key_bytes kf segments = if key_length kf segments == 0 then panic else (do
  (key, n) ←
      put_segments kf.layout segments (kf.prefix ∷ replicate (key_length kf segments - 1) 0) 1
  ok (take n key))

unfoldable pub scan_segments : List ℕ → Bytes → ℕ → List Bytes
scan_segments [] key n = []
scan_segments (zero ∷ layout) key n =
    if ltb (length key) n then [] else drop n key ∷ replicate (length layout) []
scan_segments (suc l ∷ layout) key n =
    let rest = scan_segments layout key (n + suc l) in
    if ltb (length key) (n + suc l) then [] else take (suc l) (drop n key) ∷ rest

unfoldable pub scan_bytes : KeyFormat → Bytes → List Bytes
unfolding scan_segments
scan_bytes kf key = scan_segments kf.layout key 1
