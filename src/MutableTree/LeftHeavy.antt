-- ===== src/MutableTree/LeftHeavy.antt =====
-- The branch `balance > 1` of `balance`.
use iavl.Prelude.{suc, ◌≡◌, true, false, none, is_some, ◌>>=◌, arith, leb, Bool-cases, inl, inr}
use iavl.Bytes.{Bytes}
use iavl.Avl
use iavl.Avl.{Tree, leaf, inner, height, size, leans_left, leans_right}
use iavl.Node.{Node, node, Fields, NodeDb, is_leaf}
use iavl.Node.Represents.{Represents}
use iavl.Rebalance.{replace_left, rotate_right, rotate_left, balance_left_heavy}
use iavl.MutableTree.Turning.{
  Makes-copy, rotate_right_lem, rotate_left_lem, calc_balance_lem, leans_left_test, left_heavy_tree,
}
use iavl.MutableTree.Rotations.{Yields, Fits, Builds-Yields, clone_lem}

module _ (ndb : NodeDb) where
  -- The left child, rotated, put back under the node.
  left_right :
      (f : Fields) (a b : Node) (k j m : Bytes) (p c d r : Tree)
      → f.key ≡ k
      → is_leaf f ≡ false
      → is_some f.node_key ≡ false
      → Represents ndb (inner j p (inner m c d)) a
      → Represents ndb r b
      → Fits (inner j p (inner m c d)) r
      → height (inner j p (inner m c d)) ≡ suc (suc (height r))
      → Yields ndb
          (rotate_left ndb a >>= λ left.
            (replace_left ndb (node f a b) left >>= λ n. rotate_right ndb n))
          (inner m (inner j p c) (inner k d r))
  left_right f a b k j m p c d r e inn s ra rb fits h =
      let turned =
        rotate_left_lem ndb a j m p c d (clone_lem ndb j p (inner m c d) a ra).makes (omega arith)
          (omega arith) in
      let y = Builds-Yields ndb _ m (inner j p c) d turned in
      let f' : Fields = record f { left_node_key = none } in
      let whole = Makes-copy ndb f' y.n b k (inner m (inner j p c) d) r e inn s y.rep rb in
      rw y.result (
        Builds-Yields ndb _ m (inner j p c) (inner k d r) (
          rotate_right_lem ndb (node f' y.n b) k m (inner j p c) d r whole (omega arith)
            (omega arith)))

  pub balance_left_heavy_lem :
      (f : Fields) (a b : Node) (k : Bytes) (l r : Tree)
      → f.key ≡ k
      → is_leaf f ≡ false
      → is_some f.node_key ≡ false
      → Represents ndb l a
      → Represents ndb r b
      → Fits l r
      → height l ≡ suc (suc (height r))
      → Yields ndb (balance_left_heavy ndb (node f a b)) (left_heavy_tree k l r)
  unfolding balance_left_heavy leans_left Avl.rotate_right Avl.rotate_left
  balance_left_heavy_lem f a b k (leaf j v) r e inn s ra rb fits h = absurd (omega arith)
  balance_left_heavy_lem f a b k (inner j p (leaf m v)) r e inn s ra rb fits h =
      let test = leans_left_test (height p) 0 (omega arith) (omega arith) in
      let t : leb 0 (height p) ≡ true = ground arith in
      let whole = Makes-copy ndb f a b k (inner j p (leaf m v)) r e inn s ra rb in
      rw (calc_balance_lem ndb j p (leaf m v) a ra, test, t)
        (Builds-Yields ndb _ j p (inner k (leaf m v) r)
          (rotate_right_lem ndb (node f a b) k j p (leaf m v) r whole (omega arith) (omega arith)))
  balance_left_heavy_lem f a b k (inner j p (inner m c d)) r e inn s ra rb fits h =
      let q = inner m c d in
      let test = leans_left_test (height p) (height q) (omega arith) (omega arith) in
      elim (Bool-cases (leb (height q) (height p))) [
        | inl t ↦
            let whole = Makes-copy ndb f a b k (inner j p q) r e inn s ra rb in
            rw (calc_balance_lem ndb j p q a ra, test, t)
              (Builds-Yields ndb _ j p (inner k q r)
                (rotate_right_lem ndb (node f a b) k j p q r whole (omega arith) (omega arith)))
        | inr t ↦
            rw (calc_balance_lem ndb j p q a ra, test, t)
              (left_right f a b k j m p c d r e inn s ra rb fits h)
      ]
