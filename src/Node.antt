-- ===== src/Node.antt =====
-- node.go: the nodes of a tree, and the reads of a tree by key and by index.
-- A pointer to a node is `nil` or the node that it points to, with its two child pointers. A child
-- that is not in memory is `nil` there and is loaded by its key. `int64` and `int8` fields are bit
-- patterns. What `clone` does to the node that it copies, dropping the child pointers of a saved
-- node, is left out: a saved node keeps the keys of its children, and loading by these gives them.
-- Recursion down a tree is on fuel, since a loaded child is not a part of its parent's value.
pub mod Represents
pub mod Reads
use iavl.Prelude.{
  ℕ, zero, suc, ◌+◌, ◌-◌, ◌%◌, Bool, true, false, Option, none, some, ◌==◌, if◌then◌else◌, is_some,
  Ordering, Result, ok, err, panic, stuck, ◌>>=◌, ◌>>◌, Error,
}
use iavl.Prelude.Words.{ℤ, sub_ℕ, two_8, two_64, offset_8, lt_int8, lt_int64}
use iavl.FastNode.{FastNode}
use iavl.Bytes.{Bytes, compare_bytes, lt_bytes, equal_bytes}

pub record NodeKey : Type 0 where
  pub version : ℕ
  pub nonce : ℕ

pub record Fields : Type 0 where
  pub key : Bytes
  pub value : Option Bytes
  pub hash : Option Bytes
  pub node_key : Option NodeKey
  pub left_node_key : Option Bytes
  pub right_node_key : Option Bytes
  pub size : ℕ
  pub subtree_height : ℕ
  pub is_legacy : Bool

-- `*Node`, with `leftNode` and `rightNode`
pub data Node : Type 0 where
  nil : Node
  node : Fields → Node → Node → Node

-- What the trees ask of `nodeDB`: `GetNode`, which fails on a key that it does not have,
-- `GetFastNode`, which may find none, and the latest version that it knows.
pub record NodeDb : Type 0 where
  pub get_node : Option Bytes → Result Node
  pub get_fast_node : Bytes → Result (Option FastNode)
  pub latest_version : ℕ

unfoldable pub new_node : Bytes → Bytes → Node
new_node key value =
    node
      (record {
        key = key;
        value = some value;
        hash = none;
        node_key = none;
        left_node_key = none;
        right_node_key = none;
        size = 1;
        subtree_height = 0;
        is_legacy = false;
      })
      nil nil

-- a read of the fields behind a pointer
abbrev pub fields : Node → Result Fields
fields nil = panic
fields (node f a b) = ok f

abbrev pub left_of : Node → Result Node
left_of nil = panic
left_of (node f a b) = ok a

abbrev pub right_of : Node → Result Node
right_of nil = panic
right_of (node f a b) = ok b

abbrev pub set_left : Node → Node → Result Node
set_left nil a = panic
set_left (node f a b) a' = ok (node f a' b)

abbrev pub set_right : Node → Node → Result Node
set_right nil b = panic
set_right (node f a b) b' = ok (node f a b')

abbrev pub is_leaf : Fields → Bool
is_leaf f = f.subtree_height == 0

unfoldable pub max_int8 : ℕ → ℕ → ℕ
max_int8 a b = if lt_int8 b a then a else b

module _ (ndb : NodeDb) where
  -- the child in memory, or else the one under the key
  abbrev pub child : Node → Option Bytes → Result Node
  child nil key = ndb.get_node key
  child (node f a b) key = ok (node f a b)

  unfoldable pub get_left_node : Node → Result Node
  get_left_node nil = panic
  get_left_node (node f a b) = child a f.left_node_key

  unfoldable pub get_right_node : Node → Result Node
  get_right_node nil = panic
  get_right_node (node f a b) = child b f.right_node_key

  abbrev pub cloned : Fields → Fields
  cloned f = record f { value = none; hash = none; node_key = none; is_legacy = false }

  unfoldable pub clone : Node → Result Node
  unfolding get_left_node get_right_node
  clone nil = panic
  clone (node f a b) =
      if is_leaf f
      then err Error.clone_leaf_node
      else (if is_some f.node_key
          then (do
            left_node ← get_left_node (node f a b)
            right_node ← get_right_node (node f a b)
            ok (node (cloned f) left_node right_node))
          else ok (node (cloned f) a b))

  -- The node with its height and its size set.
  unfoldable pub calc_height_and_size : Node → Result Node
  unfolding get_left_node get_right_node max_int8
  calc_height_and_size nil = panic
  calc_height_and_size (node f a b) = do
    left_node ← get_left_node (node f a b)
    right_node ← get_right_node (node f a b)
    left ← fields left_node
    right ← fields right_node
    ok (
        node
          (record f {
            size = (left.size + right.size) % two_64;
            subtree_height = (max_int8 left.subtree_height right.subtree_height + 1) % two_8;
          })
          a b)

  unfoldable pub calc_balance : Node → Result ℤ
  unfolding get_left_node get_right_node
  calc_balance n = do
    left_node ← get_left_node n
    right_node ← get_right_node n
    left ← fields left_node
    right ← fields right_node
    ok (sub_ℕ (offset_8 left.subtree_height) (offset_8 right.subtree_height))

  unfoldable pub has : ℕ → Node → Bytes → Result Bool
  unfolding get_left_node get_right_node
  has zero n key = stuck
  has (suc fuel) n key = do
    f ← fields n
    if equal_bytes f.key key
        then ok true
        else (if is_leaf f then ok false else elim (lt_bytes key f.key) [
          | true ↦ do left_node ← get_left_node n; has fuel left_node key
          | false ↦ do right_node ← get_right_node n; has fuel right_node key
        ])

  -- what `get` answers at a leaf
  abbrev pub get_leaf : Fields → Bytes → ℕ × Option Bytes
  get_leaf f key = elim (compare_bytes f.key key) [
    | Ordering.lt ↦ (1, none)
    | Ordering.gt ↦ (0, none)
    | Ordering.eq ↦ (0, f.value)
  ]

  unfoldable pub get : ℕ → Node → Bytes → Result (ℕ × Option Bytes)
  unfolding get_left_node get_right_node
  get zero n key = stuck
  get (suc fuel) n key = do
    f ← fields n
    if is_leaf f then ok (get_leaf f key) else elim (lt_bytes key f.key) [
      | true ↦ do left_node ← get_left_node n; get fuel left_node key
      | false ↦ do
        right_node ← get_right_node n
        (index, value) ← get fuel right_node key
        right ← fields right_node
        ok ((index + (f.size + two_64 - right.size)) % two_64, value)
    ]

  unfoldable pub get_by_index : ℕ → Node → ℕ → Result (Option (Bytes × Option Bytes))
  unfolding get_left_node get_right_node
  get_by_index zero n index = stuck
  get_by_index (suc fuel) n index = do
    f ← fields n
    if is_leaf f then ok (if index == 0 then some (f.key, f.value) else none) else (do
      left_node ← get_left_node n
      left ← fields left_node
      elim (lt_int64 index left.size) [
        | true ↦ get_by_index fuel left_node index
        | false ↦ do
          right_node ← get_right_node n
          get_by_index fuel right_node ((index + two_64 - left.size) % two_64)
      ])
