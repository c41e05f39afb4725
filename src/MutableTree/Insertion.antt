-- ===== src/MutableTree/Insertion.antt =====
-- mutable_tree.go: `recursiveSet` on nodes that stand for reference trees.
use iavl.Prelude.{
  ℕ, zero, suc, ◌+◌, ◌%◌, ◌<◌, ◌≡◌, refl, ap, ◌∙◌, Bool, true, false, not, none, is_some,
  if◌then◌else◌, ok, ◌>>=◌, max, arith, Result, Bool-cases, inl, inr, Ordering-cases, >>=-chain,
}
use iavl.Prelude.Words.{two_63, two_64}
use iavl.Bytes.{Bytes, compare_bytes, lt_bytes}
use iavl.FastNode.{new_fast_node}
use iavl.Avl.{Tree, leaf, inner, height, size, IsBalanced, insert}
use iavl.Avl.Heights.{height-lt, insert-Grown, height-insert_updated}
use iavl.Avl.Sizes.{size-insert}
use iavl.Node.{Node, nil, node, Fields, NodeDb, is_leaf, new_node, calc_height_and_size}
use iavl.Node.Represents.{Represents, at_leaf, at_inner, child-Represents, new_node-Represents}
use iavl.MutableTree.{
  MutableTree, add_unsaved_addition, recursive_set, recursive_set_leaf, finish_set, new_inner,
}
use iavl.Rebalance.{balance}
use iavl.MutableTree.Rotations.{clone_lem}
use iavl.MutableTree.Balancing.{rebalance_lem}

-- The fast node that a set leaves behind.
abbrev pub note_addition : MutableTree → Bytes → Bytes → MutableTree
note_addition tree key value =
    if not tree.skip_fast_storage_upgrade
    then add_unsaved_addition tree key
        (new_fast_node key value ((tree.immutable.version + 1) % two_64))
    else tree

pub record Sets (ndb : NodeDb) (res : Result (Node × Bool × MutableTree)) (tree : MutableTree)
    (t : Tree) (x v : Bytes) : Type 0 where
  pub n : Node
  pub result : res ≡ ok (n, (insert t x v).1, note_addition tree x v)
  pub rep : Represents ndb (insert t x v).0 n

module _ (ndb : NodeDb) (tree : MutableTree) (x v : Bytes) where
  set_leaf_lem :
      (f : Fields) (k w : Bytes)
      → f.key ≡ k
      → Represents ndb (leaf k w) (node f nil nil)
      → Sets ndb (ok (recursive_set_leaf tree (node f nil nil) f x v)) tree (leaf k w) x v
  unfolding recursive_set_leaf insert
  set_leaf_lem f k w e rep = elim (Ordering-cases (compare_bytes x k)) [
    | inl c ↦
        let c' = ap (compare_bytes x) e ∙ c in
        record {
          n = new_inner f.key (new_node x v) (node f nil nil);
          result = ground arith;
          rep =
              rw (c, insert)
                (at_inner e refl refl (λ _. refl) (λ _. refl)
                  (child-Represents ndb (leaf x v) (new_node x v) none
                    (new_node-Represents ndb x v))
                  refl (new_node-Represents ndb x v) rep);
        }
    | inr (inl c) ↦
        let c' = ap (compare_bytes x) e ∙ c in
        record {
          n = new_node x v;
          result = ground arith;
          rep = rw (c, insert) (new_node-Represents ndb x v);
        }
    | inr (inr c) ↦
        let c' = ap (compare_bytes x) e ∙ c in
        record {
          n = new_inner x (node f nil nil) (new_node x v);
          result = ground arith;
          rep =
              rw (c, insert)
                (at_inner refl refl refl (λ _. refl) (λ _. refl) refl
                  (child-Represents ndb (leaf x v) (new_node x v) none
                    (new_node-Represents ndb x v))
                  rep (new_node-Represents ndb x v));
        }
  ]

  -- What is left to do once a child was set, on either side.
  finish_updated :
      (f : Fields) (a b : Node) (k : Bytes) (l r : Tree) (tree' : MutableTree)
      → f.key ≡ k
      → f.size ≡ size l + size r
      → f.subtree_height ≡ suc (max (height l) (height r))
      → is_some f.node_key ≡ false
      → Represents ndb l a
      → Represents ndb r b
      → Represents ndb (inner k l r) (node f a b)
  finish_updated f a b k l r tree' e e_s e_h s ra rb =
      at_inner e e_s e_h (λ _. refl) (λ _. refl) (child-Represents ndb l a f.left_node_key ra)
        (child-Represents ndb r b f.right_node_key rb) ra rb

  set_left_lem :
      (c : Fields) (a b : Node) (k : Bytes) (l r : Tree)
      → lt_bytes x k ≡ true
      → c.key ≡ k
      → c.size ≡ size l + size r
      → c.subtree_height ≡ suc (max (height l) (height r))
      → is_some c.node_key ≡ false
      → Represents ndb (insert l x v).0 a
      → Represents ndb r b
      → IsBalanced (inner k l r)
      → size (inner k l r) + 1 < two_63
      → Sets ndb
          (finish_set ndb (node c a b) (insert l x v).1 (note_addition tree x v))
          tree
          (inner k l r)
          x
          v
  unfolding insert finish_set
  set_left_lem c a b k l r lt e e_s e_h s ra rb bal fits = elim (Bool-cases (insert l x v).1) [
    | inl u ↦
        let same = height-insert_updated l x v u in
        let same' : size (insert l x v).0 ≡ size l = ground (arith, size-insert l x v) in
        record {
          n = node c a b;
          result = ground arith;
          rep =
              rw (lt, u, insert)
                (finish_updated c a b k (insert l x v).0 r tree e (omega arith) (omega arith) s ra
                  rb);
        }
    | inr u ↦
        let g = insert-Grown l x v bal.2 in
        let more : size (insert l x v).0 ≡ suc (size l) = ground (arith, size-insert l x v) in
        let h_l = height-lt 63 l bal.2 (omega arith) in
        let h_r = height-lt 63 r bal.3 (omega arith) in
        let y =
          rebalance_lem ndb c a b k (insert l x v).0 r e s ra rb (omega arith) (omega arith)
            (omega arith) in
        record {
          n = y.n;
          result =
              rw (u, lt, insert)
                (rw u (
                  >>=-chain (calc_height_and_size ndb (node c a b)) (balance ndb)
                    (λ n. ok (n, false, note_addition tree x v)) y.result));
          rep = rw (lt, u, insert) y.rep;
        }
  ]

  set_right_lem :
      (c : Fields) (a b : Node) (k : Bytes) (l r : Tree)
      → lt_bytes x k ≡ false
      → c.key ≡ k
      → c.size ≡ size l + size r
      → c.subtree_height ≡ suc (max (height l) (height r))
      → is_some c.node_key ≡ false
      → Represents ndb l a
      → Represents ndb (insert r x v).0 b
      → IsBalanced (inner k l r)
      → size (inner k l r) + 1 < two_63
      → Sets ndb
          (finish_set ndb (node c a b) (insert r x v).1 (note_addition tree x v))
          tree
          (inner k l r)
          x
          v
  unfolding insert finish_set
  set_right_lem c a b k l r ge e e_s e_h s ra rb bal fits = elim (Bool-cases (insert r x v).1) [
    | inl u ↦
        let same = height-insert_updated r x v u in
        let same' : size (insert r x v).0 ≡ size r = ground (arith, size-insert r x v) in
        record {
          n = node c a b;
          result = ground arith;
          rep =
              rw (ge, u, insert)
                (finish_updated c a b k l (insert r x v).0 tree e (omega arith) (omega arith) s ra
                  rb);
        }
    | inr u ↦
        let g = insert-Grown r x v bal.3 in
        let more : size (insert r x v).0 ≡ suc (size r) = ground (arith, size-insert r x v) in
        let h_l = height-lt 63 l bal.2 (omega arith) in
        let h_r = height-lt 63 r bal.3 (omega arith) in
        let y =
          rebalance_lem ndb c a b k l (insert r x v).0 e s ra rb (omega arith) (omega arith)
            (omega arith) in
        record {
          n = y.n;
          result =
              rw (u, ge, insert)
                (rw u (
                  >>=-chain (calc_height_and_size ndb (node c a b)) (balance ndb)
                    (λ n. ok (n, false, note_addition tree x v)) y.result));
          rep = rw (ge, u, insert) y.rep;
        }
  ]

  pub recursive_set_lem :
      (t : Tree) (n : Node) (fuel : ℕ)
      → Represents ndb t n
      → IsBalanced t
      → size t + 1 < two_63
      → height t < fuel
      → Sets ndb (recursive_set ndb fuel tree n x v) tree t x v
  unfolding recursive_set
  recursive_set_lem t n zero rep bal fits h = absurd (omega arith)
  recursive_set_lem t n (suc fuel) (at_leaf {f = f} {k = k} {v = w} e e_v e_1 e_0) bal fits h =
      let lf : is_leaf f ≡ true = ground arith in
      rw lf (set_leaf_lem f k w e (at_leaf e e_v e_1 e_0))
  recursive_set_lem t n (suc fuel)
        (at_inner {f = f} {k = k} {l = l} {r = r} {a = a} {b = b} e e_s e_h ma mb la lb rl rr) bal
        fits h =
      let inn : is_leaf f ≡ false = ground arith in
      let c = clone_lem ndb k l r (node f a b) (at_inner e e_s e_h ma mb la lb rl rr) in
      elim (Bool-cases (lt_bytes x k)) [
        | inl lt ↦
            let ih = recursive_set_lem l c.a fuel c.left bal.2 (omega arith) (omega arith) in
            let key : lt_bytes x c.f.key ≡ true = ap (lt_bytes x) c.key ∙ lt in
            rw (inn, c.result)
              (rw (key, ◌>>=◌)
                (rw ih.result (
                  set_left_lem c.f ih.n c.b k l r lt c.key c.size_ok c.height_ok c.unsaved ih.rep
                    c.right bal fits)))
        | inr ge ↦
            let ih = recursive_set_lem r c.b fuel c.right bal.3 (omega arith) (omega arith) in
            let key : lt_bytes x c.f.key ≡ false = ap (lt_bytes x) c.key ∙ ge in
            rw (inn, c.result)
              (rw (key, ◌>>=◌)
                (rw ih.result (
                  set_right_lem c.f c.a ih.n k l r ge c.key c.size_ok c.height_ok c.unsaved c.left
                    ih.rep bal fits)))
      ]
