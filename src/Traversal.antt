-- ===== src/Traversal.antt =====
-- iterator.go and node.go: the traversal of a tree within a range of keys, and the iterations of
-- immutable_tree.go that run on it.
-- The last of the delayed nodes comes first in the list. A callback is a function on nodes; the
-- nodes that it was called on are returned in order, with what the traversal returns. A call of
-- `next` and the loop around it have fuel.
pub mod Ranges
pub mod Steps
pub mod Iterations
use iavl.Prelude.{
  ℕ, zero, suc, List, [], ◌∷◌, Bool, true, false, not, ◌&&◌, ◌||◌, Option, none, some, ◌==◌,
  if◌then◌else◌, Result, ok, err, panic, stuck, ◌>>=◌,
}
use iavl.Bytes.{Bytes, lt_bytes, equal_bytes}
use iavl.Node.{Node, nil, node, Fields, NodeDb, fields, is_leaf, get_left_node, get_right_node}
use iavl.ImmutableTree.{ImmutableTree, is_nil}

pub record Traversal : Type 0 where
  pub start : Option Bytes
  pub end : Option Bytes
  pub ascending : Bool
  pub inclusive : Bool
  pub post : Bool
  pub delayed_nodes : List (Node × Bool)

unfoldable pub new_traversal : Node → Option Bytes → Option Bytes → Bool → Bool → Bool → Traversal
new_traversal n start end ascending inclusive post = record {
  start = start;
  end = end;
  ascending = ascending;
  inclusive = inclusive;
  post = post;
  delayed_nodes = (n, true) ∷ [];
}

unfoldable pub push : Node → Bool → List (Node × Bool) → List (Node × Bool)
push n delayed nodes = (n, delayed) ∷ nodes

-- `start == nil || bytes.Compare(start, key) < 0`, and with `bytes.Equal(start, key)`
unfoldable pub after_start : Option Bytes → Bytes → Bool
after_start none key = true
after_start (some start) key = lt_bytes start key

unfoldable pub start_or_after : Option Bytes → Bytes → Bool
start_or_after none key = true
start_or_after (some start) key = lt_bytes start key || equal_bytes start key

-- `end == nil || bytes.Compare(key, end) < 0`, and for an inclusive end with `bytes.Equal(key, end)`
unfoldable pub before_end : Option Bytes → Bool → Bytes → Bool
before_end none inclusive key = true
before_end (some end) inclusive key = lt_bytes key end || (inclusive && equal_bytes key end)

module _ (ndb : NodeDb) where
  unfoldable pub push_left : Bool → Node → List (Node × Bool) → Result (List (Node × Bool))
  unfolding get_left_node push
  push_left false n nodes = ok nodes
  push_left true n nodes = do left_node ← get_left_node ndb n; ok (push left_node true nodes)

  unfoldable pub push_right : Bool → Node → List (Node × Bool) → Result (List (Node × Bool))
  unfolding get_right_node push
  push_right false n nodes = ok nodes
  push_right true n nodes = do right_node ← get_right_node ndb n; ok (push right_node true nodes)

  unfoldable pub push_children :
      (ascending after before : Bool) → Node → List (Node × Bool) → Result (List (Node × Bool))
  unfolding push_left push_right
  push_children true after before n nodes = do
    nodes ← push_right before n nodes
    push_left after n nodes
  push_children false after before n nodes = do
    nodes ← push_left after n nodes
    push_right before n nodes

  unfoldable pub next : ℕ → Traversal → Result (Node × Traversal)
  unfolding push_children push
  next zero t = stuck
  next (suc fuel) t = elim (t.delayed_nodes) [
    | [] ↦ ok (nil, t)
    | (n, delayed) ∷ nodes ↦
        if not delayed || is_nil n then ok (n, record t { delayed_nodes = nodes }) else (do
          f ← fields n
          let after = after_start t.start f.key
          let before = before_end t.end t.inclusive f.key
          let returned = not (is_leaf f) || (start_or_after t.start f.key && before)
          let nodes = if t.post && returned then push n false nodes else nodes
          nodes ← if is_leaf f then ok nodes else push_children t.ascending after before n nodes
          let t = record t { delayed_nodes = nodes }
          let rest = next fuel t
          if not t.post && returned then ok (n, t) else rest)
  ]

  -- The body of the loop of `traverseInRange`, on what `next` returned: an error ends it without a
  -- word, and `rest` goes on.
  unfoldable pub visit :
      (Node → Bool)
      → (Traversal → Result (List Node × Bool))
      → Result (Node × Traversal)
      → Result (List Node × Bool)
  visit cb rest (err e) = ok ([], false)
  visit cb rest panic = panic
  visit cb rest stuck = stuck
  visit cb rest (ok (n, t)) =
      if is_nil n
      then ok ([], false)
      else (if cb n
          then ok (n ∷ [], true)
          else (do (visited, stop) ← rest t; ok (n ∷ visited, stop)))

  unfoldable pub traverse_loop :
      (limit fuel : ℕ) → Traversal → (Node → Bool) → Result (List Node × Bool)
  unfolding visit
  traverse_loop limit zero t cb = stuck
  traverse_loop limit (suc fuel) t cb = visit cb (λ t. traverse_loop limit fuel t cb) (next limit t)

  unfoldable pub traverse_in_range :
      ℕ
      → Node
      → Option Bytes
      → Option Bytes
      → (ascending inclusive post : Bool) → (Node → Bool)
      → Result (List Node × Bool)
  unfolding traverse_loop new_traversal
  traverse_in_range fuel n start end ascending inclusive post cb =
      traverse_loop fuel fuel (new_traversal n start end ascending inclusive post) cb

  -- The callback of `IterateRange`: it calls `fn` on leaves, and goes on at other nodes.
  abbrev pub on_leaf : (Bytes → Option Bytes → Bool) → Node → Bool
  on_leaf fn nil = false
  on_leaf fn (node f a b) = if f.subtree_height == 0 then fn f.key f.value else false

  -- `IterateRange`: the nodes visited, and whether the callback stopped it.
  unfoldable pub iterate_range :
      ℕ
      → ImmutableTree
      → Option Bytes
      → Option Bytes
      → (ascending : Bool) → (Bytes → Option Bytes → Bool)
      → Result (List Node × Bool)
  unfolding traverse_in_range is_nil
  iterate_range fuel t start end ascending fn =
      if is_nil t.root
      then ok ([], false)
      else traverse_in_range fuel t.root start end ascending false false (on_leaf fn)
