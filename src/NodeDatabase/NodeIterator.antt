-- ===== src/NodeDatabase/NodeIterator.antt =====
-- iterator.go: `NodeIterator`, depth first and in preorder over the nodes of the database. The last
-- of the nodes to visit comes first in the list.
use iavl.Prelude.{
  List, [], ◌∷◌, Bool, true, false, not, ◌&&◌, Option, none, some, is_some, length, ◌==◌,
  if◌then◌else◌, Result, ok, err, panic, stuck, ◌>>=◌, Error,
}
use iavl.Bytes.{Bytes}
use iavl.Node.{Node, Fields, fields, is_leaf}
use iavl.MemDb.{BTree}
use iavl.NodeDatabase.{NodeDatabase}
use iavl.NodeDatabase.Roots.{get_node}

pub record NodeIterator : Type 0 where
  pub nodes_to_visit : List Node
  pub failure : Option Error

unfoldable pub has_current : NodeIterator → Bool
has_current iter = not (is_some iter.failure) && not (length iter.nodes_to_visit == 0)

-- `GetNode` panics where none is left.
unfoldable pub current_node : NodeIterator → Result Node
current_node iter = elim (iter.nodes_to_visit) [ [] ↦ panic | n ∷ nodes ↦ ok n ]

module _ (B : BTree) (sum_256 : Bytes → Bytes) where
  unfoldable pub new_node_iterator : Bytes → NodeDatabase B → Result (NodeIterator × NodeDatabase B)
  new_node_iterator [] ndb = ok (record { nodes_to_visit = []; failure = none }, ndb)
  new_node_iterator (b ∷ root_key) ndb = do
    (n, ndb) ← get_node B sum_256 ndb (some (b ∷ root_key))
    ok (record { nodes_to_visit = n ∷ []; failure = none }, ndb)

  -- A child is pushed, or its error is kept; whether it was pushed.
  unfoldable pub pushed :
      NodeIterator
      → NodeDatabase B
      → Result (Node × NodeDatabase B)
      → Result (Bool × NodeIterator × NodeDatabase B)
  pushed iter ndb (ok (n, after)) =
      ok (true, record iter { nodes_to_visit = n ∷ iter.nodes_to_visit }, after)
  pushed iter ndb (err e) = ok (false, record iter { failure = some e }, ndb)
  pushed iter ndb panic = panic
  pushed iter ndb stuck = stuck

  unfoldable pub push_both :
      NodeIterator → NodeDatabase B → Fields → Result (NodeIterator × NodeDatabase B)
  unfolding pushed
  push_both iter ndb f = do
    (more, iter, ndb) ← pushed iter ndb (get_node B sum_256 ndb f.right_node_key)
    if more
        then (do
          (more, iter, ndb) ← pushed iter ndb (get_node B sum_256 ndb f.left_node_key)
          ok (iter, ndb))
        else ok (iter, ndb)

  unfoldable pub next_node :
      NodeIterator → NodeDatabase B → (is_skipped : Bool) → Result (NodeIterator × NodeDatabase B)
  unfolding has_current push_both
  next_node iter ndb is_skipped =
      if not (has_current iter) then ok (iter, ndb) else elim (iter.nodes_to_visit) [
        | [] ↦ panic
        | n ∷ nodes ↦
            let popped = record iter { nodes_to_visit = nodes } in
            if is_skipped
            then ok (popped, ndb)
            else (do f ← fields n; if is_leaf f then ok (popped, ndb) else push_both popped ndb f)
      ]
