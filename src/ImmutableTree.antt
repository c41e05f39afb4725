-- ===== src/ImmutableTree.antt =====
-- immutable_tree.go: a version of the tree, and the reads that it answers.
-- Recursion down a tree gets `depth_limit` steps: heights are `int8` values, so no path from the
-- root of a well-formed tree is longer.
pub mod Reads
use iavl.Prelude.{
  ℕ, ◌+◌, ◌%◌, Bool, true, false, Option, none, some, ◌==◌, if◌then◌else◌, not, Result, ok, err,
  panic, stuck, ◌>>=◌,
}
use iavl.Prelude.Words.{two_64, lt_int64}
use iavl.Bytes.{Bytes}
use iavl.FastNode.{FastNode}
use iavl.Node.{Node, nil, node, NodeDb, fields, has, get, get_by_index}

pub record ImmutableTree : Type 0 where
  pub root : Node
  pub version : ℕ
  pub skip_fast_storage_upgrade : Bool

pub depth_limit : ℕ
depth_limit = 128

unfoldable pub is_nil : Node → Bool
is_nil nil = true
is_nil (node f a b) = false

unfoldable pub tree_size : ImmutableTree → ℕ
tree_size t = elim (t.root) [ nil ↦ 0 | node f a b ↦ f.size ]

unfoldable pub tree_height : ImmutableTree → ℕ
tree_height t = elim (t.root) [ nil ↦ 0 | node f a b ↦ f.subtree_height ]

module _ (ndb : NodeDb) where
  unfoldable pub tree_has : ImmutableTree → Bytes → Result Bool
  unfolding is_nil
  tree_has t key = if is_nil t.root then ok false else has ndb depth_limit t.root key

  unfoldable pub get_with_index : ImmutableTree → Bytes → Result (ℕ × Option Bytes)
  unfolding is_nil
  get_with_index t key = if is_nil t.root then ok (0, none) else get ndb depth_limit t.root key

  -- `_, result, err := t.root.get(t, key); return result, err`
  unfoldable pub get_value : ImmutableTree → Bytes → Result (Option Bytes)
  get_value t key = do (index, result) ← get ndb depth_limit t.root key; ok result

  -- what `Get` makes of the answer of `GetFastNode`
  unfoldable pub get_fast : ImmutableTree → Bytes → Result (Option FastNode) → Result (Option Bytes)
  unfolding get_value
  get_fast t key (err e) = get_value t key
  get_fast t key (ok none) = if t.version == ndb.latest_version then ok none else get_value t key
  get_fast t key (ok (some fast_node)) =
      if not (lt_int64 t.version fast_node.version_last_updated_at)
      then ok (some fast_node.value)
      else get_value t key
  get_fast t key panic = panic
  get_fast t key stuck = stuck

  unfoldable pub tree_get : ImmutableTree → Bytes → Result (Option Bytes)
  unfolding is_nil get_fast get_value
  tree_get t key =
      if is_nil t.root
      then ok none
      else (if not t.skip_fast_storage_upgrade
          then get_fast t key (ndb.get_fast_node key)
          else get_value t key)

  unfoldable pub tree_get_by_index : ImmutableTree → ℕ → Result (Option (Bytes × Option Bytes))
  unfolding is_nil
  tree_get_by_index t index =
      if is_nil t.root then ok none else get_by_index ndb depth_limit t.root index
