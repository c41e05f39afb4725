-- ===== src/Compress.antt =====
-- compress.go: the compression of an export, and its inverse in front of an import.
-- A nil key is an empty one. The top of a stack comes first in the list. `delta_decode` panics where
-- it would read behind the end of the last key; Go still reads up to the capacity of that slice.
-- The inner exporter and importer are left out: a step maps the node that passes.
pub mod RoundTrip
use iavl.Prelude.{
  ℕ, zero, suc, ◌+◌, ◌-◌, ◌%◌, List, [], ◌∷◌, ◌++◌, Bool, true, false, Option, ◌==◌, ltb,
  if◌then◌else◌, length, take, drop, Result, ok, err, panic, ◌>>=◌, Error,
}
use iavl.Prelude.Words.{ℤ, pos, negsuc, two_64, lt_int64}
use iavl.Bytes.{Bytes}
use iavl.Encoding.{put_uvarint, uvarint}

pub record ExportNode : Type 0 where
  pub key : Bytes
  pub value : Option Bytes
  pub version : ℕ
  pub height : ℕ

unfoldable pub max_int64 : ℕ → ℕ → ℕ
max_int64 a b = if lt_int64 b a then a else b

-- the number of equal bytes in front
unfoldable pub diff_offset : Bytes → Bytes → ℕ
diff_offset [] b = 0
diff_offset (x ∷ a) [] = 0
diff_offset (x ∷ a) (y ∷ b) = let rest = diff_offset a b in if x == y then suc rest else 0

unfoldable pub delta_encode : Bytes → Bytes → Bytes
unfolding diff_offset
delta_encode key last_key =
    let shared = diff_offset last_key key in put_uvarint shared ++ drop shared key

-- what follows the reading of the shared length
unfoldable pub delta_decode_with : Bytes → Bytes → ℕ × ℤ → Result Bytes
delta_decode_with key last_key (shared, negsuc n) = err Error.eof_decoding
delta_decode_with key last_key (shared, pos n) =
    if n == 0
    then err Error.buffer_too_small
    else (if shared == 0
        then ok (drop n key)
        else (if ltb (length last_key) shared
            then panic
            else ok (take shared last_key ++ drop n key)))

unfoldable pub delta_decode : Bytes → Bytes → Result Bytes
unfolding delta_decode_with
delta_decode key last_key = delta_decode_with key last_key (uvarint key)

pub record CompressExporter : Type 0 where
  pub last_key : Bytes
  pub version_stack : List ℕ

-- The branch of inner nodes: it reads two versions from the stack, and panics without them.
unfoldable pub compress_branch :
    CompressExporter → ExportNode → List ℕ → Result (ExportNode × CompressExporter)
unfolding max_int64
compress_branch e n (right ∷ left ∷ versions) = ok (
  record n { key = []; version = (n.version + (two_64 - max_int64 right left)) % two_64 },
  record e { version_stack = n.version ∷ versions },
)
compress_branch e n versions = panic

unfoldable pub compress_next :
    CompressExporter → ExportNode → Result (ExportNode × CompressExporter)
unfolding delta_encode compress_branch
compress_next e n =
    if n.height == 0
    then ok (
      record n { key = delta_encode n.key e.last_key },
      record { last_key = n.key; version_stack = n.version ∷ e.version_stack },
    )
    else compress_branch e n e.version_stack

pub record CompressImporter : Type 0 where
  pub last_key : Bytes
  pub min_key_stack : List Bytes
  pub version_stack : List ℕ

unfoldable pub restore_branch :
    CompressImporter → ExportNode → List Bytes → List ℕ → Result (ExportNode × CompressImporter)
unfolding max_int64
restore_branch i n (min_key ∷ min_keys) (right ∷ left ∷ versions) =
    let version = (n.version + max_int64 right left) % two_64 in
    ok (
      record n { key = min_key; version = version },
      record i { min_key_stack = min_keys; version_stack = version ∷ versions },
    )
restore_branch i n min_keys versions = panic

unfoldable pub compress_add : CompressImporter → ExportNode → Result (ExportNode × CompressImporter)
unfolding delta_decode restore_branch
compress_add i n =
    if n.height == 0
    then (do
      key ← delta_decode n.key i.last_key
      ok (
        record n { key = key },
        record {
          last_key = key;
          min_key_stack = key ∷ i.min_key_stack;
          version_stack = n.version ∷ i.version_stack;
        },
      ))
    else restore_branch i n i.min_key_stack i.version_stack
