-- ===== src/KeyValues/RoundTrip.antt =====
-- keyformat/key_format.go: `Key` and `Scan` on values of the widths of a layout.
use iavl.Prelude.{ℕ, ◌<◌, ◌≡◌, List, [], ◌∷◌, length, ok}
use iavl.Prelude.Words.{two_64, two_32}
use iavl.Bytes.{Bytes}
use iavl.KeyFormat.{KeyFormat}
use iavl.KeyFormat.Join.{Fits}
use iavl.KeyFormat.RoundTrip.{padded}
use iavl.KeyValues.{
  Value, uint64, int64, uint32, int32, bytes, format, Target, to_int64, to_uint64, to_uint32,
  to_int32, to_bytes, scan, format_all, scan_all,
}

-- A value fills a segment of a width, and has the type of a pointer.
pub data FitsAs : ℕ → Value → Target → Type 0 where
  fits_int64 : (v : ℕ) → v < two_64 → FitsAs 8 (int64 v) to_int64
  fits_uint64 : (v : ℕ) → v < two_64 → FitsAs 8 (uint64 v) to_uint64
  fits_int32 : (v : ℕ) → v < two_32 → FitsAs 4 (int32 v) to_int32
  fits_uint32 : (v : ℕ) → v < two_32 → FitsAs 4 (uint32 v) to_uint32
  fits_bytes : (bz : Bytes) → 0 < length bz → FitsAs (length bz) (bytes bz) to_bytes

-- Values that fill the segments of a layout; the last one may be unbounded.
pub data AllFit : List ℕ → List Value → List Target → Type 0 where
  fit_none : AllFit [] [] []
  fit_unbounded : (bz : Bytes) → AllFit (0 ∷ []) (bytes bz ∷ []) (to_bytes ∷ [])
  fit_next :
      {l : ℕ} {v : Value} {t : Target} {ls : List ℕ} {vs : List Value} {ts : List Target}
      → FitsAs l v t
      → AllFit ls vs ts
      → AllFit (l ∷ ls) (v ∷ vs) (t ∷ ts)

record Formatted (l : ℕ) (v : Value) (t : Target) : Type 0 where
  pub segment : Bytes
  pub formatted : format v ≡ ok segment
  pub filled : length segment ≡ l
  pub wide : 0 < l
  pub scanned : scan t segment ≡ ok v

record Segments (ls : List ℕ) (vs : List Value) (ts : List Target) : Type 0 where
  pub segments : List Bytes
  pub formatted : format_all vs ≡ ok segments
  pub fits : Fits ls segments
  pub count : length segments ≡ length ls
  pub values : length vs ≡ length ls
  pub targets : length ts ≡ length ls
  pub same : padded ls segments ≡ segments
  pub scanned : scan_all ts segments ≡ ok vs
