-- ===== src/MutableTree/Balancing.antt =====
-- mutable_tree.go: `balance` on nodes that stand for reference trees.
use iavl.Prelude.{
  suc, ◌+◌, ◌≤◌, ◌≡◌, refl, false, is_some, ◌>>=◌, max, arith, ltb, Bool-cases, inl, inr,
}
use iavl.Bytes.{Bytes}
use iavl.Avl
use iavl.Avl.{Tree, leaf, inner, height, size, leans_left, leans_right}
use iavl.Node.{Node, node, Fields, NodeDb, is_leaf, calc_height_and_size}
use iavl.Node.Represents.{Represents, at_inner, child-Represents}
use iavl.Rebalance.{balance}
use iavl.MutableTree.Turning.{calc_balance_lem, left_test, right_test}
use iavl.MutableTree.LeftHeavy.{balance_left_heavy_lem}
use iavl.MutableTree.RightHeavy.{balance_right_heavy_lem}
use iavl.MutableTree.Rotations.{Yields, Fits, calc_lem}

module _ (ndb : NodeDb) where
  -- `balance` on an unsaved node that caches its size and height
  pub balance_lem :
      (f : Fields) (a b : Node) (k : Bytes) (l r : Tree)
      → f.key ≡ k
      → f.size ≡ size l + size r
      → f.subtree_height ≡ suc (max (height l) (height r))
      → is_some f.node_key ≡ false
      → Represents ndb l a
      → Represents ndb r b
      → Fits l r
      → height l ≤ suc (suc (height r))
      → height r ≤ suc (suc (height l))
      → Yields ndb (balance ndb (node f a b)) (Avl.balance k l r)
  unfolding balance Avl.balance
  balance_lem f a b k l r e e_s e_h s ra rb fits hl hr =
      let inn : is_leaf f ≡ false = ground arith in
      let whole : Represents ndb (inner k l r) (node f a b) =
        at_inner e e_s e_h (λ _. refl) (λ _. refl) (child-Represents ndb l a f.left_node_key ra)
          (child-Represents ndb r b f.right_node_key rb) ra rb in
      let difference = calc_balance_lem ndb k l r (node f a b) whole in
      let t_1 = left_test (height l) (height r) (omega arith) (omega arith) in
      let t_2 = right_test (height l) (height r) (omega arith) (omega arith) in
      rw (s, difference, t_1, t_2)
        (elim (Bool-cases (ltb (suc (height r)) (height l))) [
          | inl c ↦ rw c (balance_left_heavy_lem ndb f a b k l r e inn s ra rb fits (ground arith))
          | inr c ↦ rw c (elim (Bool-cases (ltb (suc (height l)) (height r))) [
            | inl d ↦
                rw d (balance_right_heavy_lem ndb f a b k l r e inn s ra rb fits (ground arith))
            | inr d ↦ rw d (record { n = node f a b; result = refl; rep = whole })
          ])
        ])

  -- `calcHeightAndSize` and `balance`, as `recursiveSet` and `recursiveRemove` call them
  pub rebalance_lem :
      (f : Fields) (a b : Node) (k : Bytes) (l r : Tree)
      → f.key ≡ k
      → is_some f.node_key ≡ false
      → Represents ndb l a
      → Represents ndb r b
      → Fits l r
      → height l ≤ suc (suc (height r))
      → height r ≤ suc (suc (height l))
      → Yields ndb (calc_height_and_size ndb (node f a b) >>= balance ndb) (Avl.balance k l r)
  rebalance_lem f a b k l r e s ra rb fits hl hr =
      let c = calc_lem ndb f a b k l r e s ra rb fits in
      rw c.result (
        balance_lem c.f c.a c.b k l r c.key c.size_ok c.height_ok c.unsaved c.left c.right fits hl
          hr)
