-- ===== src/Hashing.antt =====
-- node.go: the hashes of nodes. `sum_256` is SHA-256, a parameter. A hash is kept
-- in its node, so that a method returns the node with it; writing to a hash never fails.
use iavl.Prelude.{
  ℕ, false, none, some, get_or, is_some, if◌then◌else◌, [], Result, ok, err, panic, stuck, ◌>>=◌,
  Error,
}
use iavl.Bytes.{Bytes}
use iavl.Encoding.{encode_varint, encode_32_bytes_hash}
use iavl.Node.{Node, nil, node, Fields, is_leaf}
use iavl.NodeStore.{sign_extend, leaf_hash_bytes}

module _ (sum_256 : Bytes → Bytes) where
  -- the hash of a child, nil for one that has none
  abbrev hash_of : Fields → Bytes
  hash_of f = get_or f.hash []

  -- `writeHashBytes`; the hashes of the children are set.
  unfoldable pub write_hash_bytes : Fields → Node → Node → ℕ → Result Bytes
  unfolding leaf_hash_bytes sign_extend
  write_hash_bytes f a b version =
      if is_leaf f then ok (leaf_hash_bytes sum_256 f version) else of_children a b
    where
      of_children : Node → Node → Result Bytes
      of_children nil b = err Error.empty_child
      of_children (node l c d) nil = err Error.empty_child
      of_children (node l c d) (node r c' d') =
          let w = encode_varint false [] (sign_extend f.subtree_height) in
          let w = encode_varint false w f.size in
          let w = encode_varint false w version in
          let w = encode_32_bytes_hash w (hash_of l) in ok (encode_32_bytes_hash w (hash_of r))

  -- `_hash`, which leaves the hash as it is where it is set or cannot be computed
  unfoldable pub set_hash : Fields → Result Bytes → Fields
  set_hash f (ok w) = record f { hash = some (sum_256 w) }
  set_hash f failed = f

  unfoldable pub hash : Fields → Node → Node → ℕ → Fields
  unfolding write_hash_bytes set_hash
  hash f a b version = if is_some f.hash then f else set_hash f (write_hash_bytes f a b version)

  -- an error of `writeHashBytesRecursively` is raised
  unfoldable pub raised : Result Bytes → Result Bytes
  raised (ok w) = ok w
  raised (err e) = panic
  raised panic = panic
  raised stuck = stuck

  unfoldable pub hash_with_count : ℕ → Node → Result (Bytes × Node)
  unfolding write_hash_bytes raised
  hash_with_count version nil = ok (sum_256 [], nil)
  hash_with_count version (node f a b) = elim (f.hash) [
    | some h ↦ ok (h, node f a b)
    | none ↦ do
      (left, a) ← hash_with_count version a
      (right, b) ← hash_with_count version b
      w ← raised (write_hash_bytes f a b version)
      ok (sum_256 w, node (record f { hash = some (sum_256 w) }) a b)
  ]
