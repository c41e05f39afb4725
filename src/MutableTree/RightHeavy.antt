-- ===== src/MutableTree/RightHeavy.antt =====
-- The branch `balance < -1` of `balance`.
use iavl.Prelude.{suc, ◌≡◌, true, false, none, is_some, ◌>>=◌, arith, leb, Bool-cases, inl, inr}
use iavl.Bytes.{Bytes}
use iavl.Avl
use iavl.Avl.{Tree, leaf, inner, height, size, leans_left, leans_right}
use iavl.Node.{Node, node, Fields, NodeDb, is_leaf, get_right_node}
use iavl.Node.Represents.{Represents, child-Represents}
use iavl.Rebalance.{replace_right, rotate_right, rotate_left, balance_right_heavy}
use iavl.MutableTree.Turning.{
  Makes-copy, rotate_right_lem, rotate_left_lem, calc_balance_lem, leans_right_test,
  right_heavy_tree,
}
use iavl.MutableTree.Rotations.{Yields, Fits, Builds-Yields, clone_lem}

module _ (ndb : NodeDb) where
  -- The right child, rotated, put back under the node.
  right_left :
      (f : Fields) (a b n' : Node) (k j m : Bytes) (l c d q : Tree)
      → f.key ≡ k
      → is_leaf f ≡ false
      → is_some f.node_key ≡ false
      → Represents ndb l a
      → Represents ndb (inner j (inner m c d) q) b
      → Fits l (inner j (inner m c d) q)
      → height (inner j (inner m c d) q) ≡ suc (suc (height l))
      → Yields ndb
          (rotate_right ndb b >>= λ right.
            (replace_right ndb (node f a n') right >>= λ n. rotate_left ndb n))
          (inner m (inner k l c) (inner j d q))
  right_left f a b n' k j m l c d q e inn s ra rb fits h =
      let turned =
        rotate_right_lem ndb b j m c d q (clone_lem ndb j (inner m c d) q b rb).makes (omega arith)
          (omega arith) in
      let y = Builds-Yields ndb _ m c (inner j d q) turned in
      let f' : Fields = record f { right_node_key = none } in
      let whole = Makes-copy ndb f' a y.n k l (inner m c (inner j d q)) e inn s ra y.rep in
      rw y.result (
        Builds-Yields ndb _ m (inner k l c) (inner j d q) (
          rotate_left_lem ndb (node f' a y.n) k m l c (inner j d q) whole (omega arith)
            (omega arith)))

  pub balance_right_heavy_lem :
      (f : Fields) (a b : Node) (k : Bytes) (l r : Tree)
      → f.key ≡ k
      → is_leaf f ≡ false
      → is_some f.node_key ≡ false
      → Represents ndb l a
      → Represents ndb r b
      → Fits l r
      → height r ≡ suc (suc (height l))
      → Yields ndb (balance_right_heavy ndb (node f a b)) (right_heavy_tree k l r)
  unfolding balance_right_heavy leans_right Avl.rotate_right Avl.rotate_left get_right_node
  balance_right_heavy_lem f a b k l (leaf j v) e inn s ra rb fits h = absurd (omega arith)
  balance_right_heavy_lem f a b k l (inner j (leaf m v) q) e inn s ra rb fits h =
      let p = leaf m v in
      let test = leans_right_test 0 (height q) (omega arith) (omega arith) in
      let t : leb 0 (height q) ≡ true = ground arith in
      let whole = Makes-copy ndb f a b k l (inner j p q) e inn s ra rb in
      rw
        (
          child-Represents ndb (inner j p q) b f.right_node_key rb,
          calc_balance_lem ndb j p q b rb,
          test,
          t,
        )
        (Builds-Yields ndb _ j (inner k l p) q
          (rotate_left_lem ndb (node f a b) k j l p q whole (omega arith) (omega arith)))
  balance_right_heavy_lem f a b k l (inner j (inner m c d) q) e inn s ra rb fits h =
      let p = inner m c d in
      let test = leans_right_test (height p) (height q) (omega arith) (omega arith) in
      elim (Bool-cases (leb (height p) (height q))) [
        | inl t ↦
            let whole = Makes-copy ndb f a b k l (inner j p q) e inn s ra rb in
            rw
              (
                child-Represents ndb (inner j p q) b f.right_node_key rb,
                calc_balance_lem ndb j p q b rb,
                test,
                t,
              )
              (Builds-Yields ndb _ j (inner k l p) q
                (rotate_left_lem ndb (node f a b) k j l p q whole (omega arith) (omega arith)))
        | inr t ↦
            rw
              (
                child-Represents ndb (inner j p q) b f.right_node_key rb,
                calc_balance_lem ndb j p q b rb,
                test,
                t,
              )
              (right_left f a b b k j m l c d q e inn s ra rb fits h)
      ]
