-- ===== src/PrefixFormatter.antt =====
-- keyformat/prefix_formatter.go: the formatter for keys of one prefix byte and one segment.
pub mod Laws
use iavl.Prelude.{
  ℕ, suc, ◌+◌, ◌-◌, [], ◌∷◌, ◌++◌, ltb, if◌then◌else◌, length, take, drop, replicate, Result, ok,
  panic,
}
use iavl.Bytes.{Bytes}
use iavl.StorageKey.{put_big_endian}

pub record FastPrefixFormatter : Type 0 where
  pub prefix : ℕ
  pub length : ℕ
  pub prefix_slice : Bytes

unfoldable pub new_fast_prefix_formatter : ℕ → ℕ → FastPrefixFormatter
new_fast_prefix_formatter prefix length = record {
  prefix = prefix;
  length = length;
  prefix_slice = prefix ∷ [];
}

-- `copy(key[1:], bz)` copies what there is room for, and leaves zeros behind a shorter slice.
unfoldable pub format_key : FastPrefixFormatter → Bytes → Bytes
format_key f bz = f.prefix ∷ (take f.length bz ++ replicate (f.length - length bz) 0)

-- `scan(a, key[1:])` for a `*[]byte`
unfoldable pub scan_key : FastPrefixFormatter → Bytes → Result Bytes
scan_key f [] = panic
scan_key f (b ∷ key) = ok key

unfoldable pub format_int64 : FastPrefixFormatter → ℕ → Result Bytes
format_int64 f n =
    if ltb f.length 8
    then panic
    else ok (f.prefix ∷ (put_big_endian 8 n ++ replicate (f.length - 8) 0))

unfoldable pub formatter_length : FastPrefixFormatter → ℕ
formatter_length f = 1 + f.length
