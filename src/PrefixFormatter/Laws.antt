-- ===== src/PrefixFormatter/Laws.antt =====
-- keyformat/prefix_formatter.go: the formatter beside the key format of one segment.
use iavl.Prelude.{
  ℕ, suc, ◌-◌, ◌≡◌, ◌∙◌, refl, sym, ap, [], ◌∷◌, ◌++◌, length, take, replicate, ok, arith,
  append-nil, take-append,
}
use iavl.Bytes.{Bytes}
use iavl.KeyFormat.{KeyFormat, new_key_format, key_bytes}
use iavl.KeyFormat.Join.{joined}
use iavl.KeyFormat.RoundTrip.{key_bytes-joined}
use iavl.PrefixFormatter.{new_fast_prefix_formatter, format_key, scan_key}

whole : (bz : Bytes) → take (length bz) bz ++ replicate (length bz - length bz) 0 ≡ bz
whole bz =
    let none : length bz - length bz ≡ 0 = omega arith in
    let all : take (length bz) bz ≡ bz =
      ap (take (length bz)) (sym (append-nil bz)) ∙ take-append bz [] in
    rw (none, all) (append-nil bz)

-- For a segment of its length, the formatter makes the key that the key format with that one
-- segment makes, and reads the segment back from it.
pub format_key-key_bytes :
    (prefix l : ℕ) (kf : KeyFormat) (bz : Bytes)
    → new_key_format prefix (suc l ∷ []) ≡ ok kf
    → length bz ≡ suc l
    → (key_bytes kf (bz ∷ []) ≡ ok (format_key (new_fast_prefix_formatter prefix (suc l)) bz))
      × (scan_key
            (new_fast_prefix_formatter prefix (suc l))
            (format_key (new_fast_prefix_formatter prefix (suc l)) bz)
          ≡ ok bz)
unfolding format_key scan_key new_fast_prefix_formatter joined
format_key-key_bytes prefix l kf bz made e =
    let full : take (suc l) bz ++ replicate (suc l - length bz) 0 ≡ bz =
      ap (λ n. take n bz ++ replicate (n - length bz) 0) (sym e) ∙ whole bz in
    let none : suc l - length bz ≡ 0 = omega arith in
    (
      key_bytes-joined prefix (suc l ∷ []) kf (bz ∷ []) made (omega arith, tt)
          ∙ rw (full, none, append-nil bz) refl,
      ap ok full,
    )
