-- ===== src/MutableTree/Turning.antt =====
-- mutable_tree.go: `rotateRight` and `rotateLeft`, and node.go: `calcBalance`, on nodes that stand
-- for reference trees.
use iavl.Prelude.{ℕ, suc, ◌<◌, ◌≡◌, refl, false, not, is_some, if◌then◌else◌, ok, arith, ltb, leb}
use iavl.Prelude.Words.{sub_ℕ, offset_8, lt_pos, lt_neg}
use iavl.Bytes.{Bytes}
use iavl.Avl
use iavl.Avl.{Tree, leaf, inner, height, size, leans_left, leans_right}
use iavl.Node.{Node, node, Fields, NodeDb, is_leaf, clone, cloned, calc_balance}
use iavl.Node.Represents.{Represents, at_inner, cached}
use iavl.Rebalance.{rotate_right, rotate_left}
use iavl.MutableTree.Rotations.{
  Makes, Builds, Fits, Builds-Yields, clone_unsaved, clone_lem, calc_lem,
}

-- The tests on a difference of heights, as tests on the heights.
pub leans_left_test :
    (a b : ℕ) → a < 127 → b < 127 → not (lt_neg (sub_ℕ (offset_8 a) (offset_8 b)) 0) ≡ leb b a
leans_left_test a b ha hb = ground arith

pub leans_right_test :
    (a b : ℕ) → a < 127 → b < 127 → not (lt_pos 0 (sub_ℕ (offset_8 a) (offset_8 b))) ≡ leb a b
leans_right_test a b ha hb = ground arith

pub left_test :
    (a b : ℕ) → a < 127 → b < 127 → lt_pos 1 (sub_ℕ (offset_8 a) (offset_8 b)) ≡ ltb (suc b) a
left_test a b ha hb = ground arith

pub right_test :
    (a b : ℕ) → a < 127 → b < 127 → lt_neg (sub_ℕ (offset_8 a) (offset_8 b)) 1 ≡ ltb (suc a) b
right_test a b ha hb = ground arith

abbrev pub left_heavy_tree : Bytes → Tree → Tree → Tree
left_heavy_tree k l r =
    if leans_left l
    then Avl.rotate_right (inner k l r)
    else Avl.rotate_right (inner k (Avl.rotate_left l) r)

abbrev pub right_heavy_tree : Bytes → Tree → Tree → Tree
right_heavy_tree k l r =
    if leans_right r
    then Avl.rotate_left (inner k l r)
    else Avl.rotate_left (inner k l (Avl.rotate_right r))

module _ (ndb : NodeDb) where
  -- An unsaved inner node, as a copy of itself.
  pub Makes-copy :
      (f : Fields) (a b : Node) (k : Bytes) (l r : Tree)
      → f.key ≡ k
      → is_leaf f ≡ false
      → is_some f.node_key ≡ false
      → Represents ndb l a
      → Represents ndb r b
      → Makes ndb (clone ndb (node f a b)) k l r
  Makes-copy f a b k l r e inn s ra rb = record {
    f = cloned ndb f;
    a = a;
    b = b;
    result = clone_unsaved ndb f a b inn s;
    key = e;
    is_inner = inn;
    unsaved = refl;
    left = ra;
    right = rb;
  }

  pub rotate_right_lem :
      (n : Node) (k j : Bytes) (p q c : Tree)
      → Makes ndb (clone ndb n) k (inner j p q) c
      → Fits q c
      → Fits p (inner k q c)
      → Builds ndb (rotate_right ndb n) j p (inner k q c)
  unfolding rotate_right
  rotate_right_lem n k j p q c c_1 fits fits' =
      let c_2 = clone_lem ndb j p q c_1.a c_1.left in
      let low =
        Builds-Yields ndb _ k q c
          (calc_lem ndb c_1.f c_2.b c_1.b k q c c_1.key c_1.unsaved c_2.right c_1.right fits) in
      let c_4 =
        calc_lem ndb c_2.f c_2.a low.n j p (inner k q c) c_2.key c_2.unsaved c_2.left low.rep
          fits' in
      rw (c_1.result, c_2.result, low.result) c_4

  pub rotate_left_lem :
      (n : Node) (k j : Bytes) (c p q : Tree)
      → Makes ndb (clone ndb n) k c (inner j p q)
      → Fits c p
      → Fits (inner k c p) q
      → Builds ndb (rotate_left ndb n) j (inner k c p) q
  unfolding rotate_left
  rotate_left_lem n k j c p q c_1 fits fits' =
      let c_2 = clone_lem ndb j p q c_1.b c_1.right in
      let low =
        Builds-Yields ndb _ k c p
          (calc_lem ndb c_1.f c_1.a c_2.a k c p c_1.key c_1.unsaved c_1.left c_2.left fits) in
      let c_4 =
        calc_lem ndb c_2.f low.n c_2.b j (inner k c p) q c_2.key c_2.unsaved low.rep c_2.right
          fits' in
      rw (c_1.result, c_2.result, low.result) c_4

  -- `calcBalance` on a represented inner node
  pub calc_balance_lem :
      (k : Bytes) (l r : Tree) (n : Node)
      → Represents ndb (inner k l r) n
      → calc_balance ndb n ≡ ok (sub_ℕ (offset_8 (height l)) (offset_8 (height r)))
  unfolding calc_balance
  calc_balance_lem k l r n (at_inner {m = m} {n = n'} e e_s e_h ma mb la lb rl rr) =
      let c = cached ndb l m rl in
      let d = cached ndb r n' rr in rw (la, lb, c.read, d.read, c.height_ok, d.height_ok)
