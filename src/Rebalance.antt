-- ===== src/Rebalance.antt =====
-- mutable_tree.go: the rotations of a node and `balance`. They return new nodes.
use iavl.Prelude.{not, none, if◌then◌else◌, is_some, Result, ok, err, panic, ◌>>=◌, Error}
use iavl.Prelude.Words.{lt_pos, lt_neg}
use iavl.Node.{
  Node, nil, node, NodeDb, fields, left_of, right_of, set_left, set_right, clone, get_right_node,
  calc_height_and_size, calc_balance,
}

module _ (ndb : NodeDb) where
  unfoldable pub rotate_right : Node → Result Node
  rotate_right n = do
    n ← clone ndb n
    left ← left_of n
    new_node ← clone ndb left
    right ← right_of new_node
    n ← set_left n right
    n ← calc_height_and_size ndb n
    new_node ← set_right new_node n
    calc_height_and_size ndb new_node

  unfoldable pub rotate_left : Node → Result Node
  rotate_left n = do
    n ← clone ndb n
    right ← right_of n
    new_node ← clone ndb right
    left ← left_of new_node
    n ← set_right n left
    n ← calc_height_and_size ndb n
    new_node ← set_left new_node n
    calc_height_and_size ndb new_node

  -- `node.leftNodeKey = nil; node.leftNode = …`, and the same on the right
  abbrev pub replace_left : Node → Node → Result Node
  replace_left nil a = panic
  replace_left (node f a b) a' = ok (node (record f { left_node_key = none }) a' b)

  abbrev pub replace_right : Node → Node → Result Node
  replace_right nil b = panic
  replace_right (node f a b) b' = ok (node (record f { right_node_key = none }) a b')

  -- the branch `balance > 1`
  unfoldable pub balance_left_heavy : Node → Result Node
  unfolding rotate_left rotate_right
  balance_left_heavy n = do
    left ← left_of n
    lft_balance ← calc_balance ndb left
    if not (lt_neg lft_balance 0)
        then rotate_right n
        else (do left ← rotate_left left; n ← replace_left n left; rotate_right n)

  -- the branch `balance < -1`
  unfoldable pub balance_right_heavy : Node → Result Node
  unfolding rotate_left rotate_right
  balance_right_heavy n = do
    right ← get_right_node ndb n
    right_balance ← calc_balance ndb right
    if not (lt_pos 0 right_balance)
        then rotate_left n
        else (do right ← rotate_right right; n ← replace_right n right; rotate_left n)

  unfoldable pub balance : Node → Result Node
  unfolding balance_left_heavy balance_right_heavy
  balance n = do
    f ← fields n
    if is_some f.node_key then err Error.balance_on_persisted else (do
      difference ← calc_balance ndb n
      if lt_pos 1 difference
          then balance_left_heavy n
          else (if lt_neg difference 1 then balance_right_heavy n else ok n))
