-- ===== src/MutableTree/Removal.antt =====
-- mutable_tree.go: `recursiveRemove` on nodes that stand for reference trees.
use iavl.Prelude.{
  ℕ, zero, suc, ◌<◌, ◌≡◌, refl, ap, ◌∙◌, true, false, none, some, is_some, if◌then◌else◌, ok, ◌>>=◌,
  arith, Result, Bool-cases, inl, inr, >>=-chain, get_or,
}
use iavl.Prelude.Words.{two_63}
use iavl.Bytes.{Bytes, lt_bytes, equal_bytes}
use iavl.Avl
use iavl.Avl.{
  Tree, leaf, inner, height, size, IsBalanced, Removal, absent, gone, kept, remove_left,
  remove_right,
}
use iavl.Avl.Heights.{height-lt, remove-Shrunk, ShrunkTo}
use iavl.Avl.Sizes.{size-remove, SmallerBy}
use iavl.Node.{Node, nil, node, Fields, NodeDb, is_leaf, calc_height_and_size}
use iavl.Node.Represents.{Represents, at_leaf, at_inner}
use iavl.ImmutableTree.{is_nil}
use iavl.ImmutableTree.Reads.{is_nil-Represents}
use iavl.MutableTree.{Removed, after_remove_left, after_remove_right, recursive_remove}
use iavl.Rebalance.{balance}
use iavl.MutableTree.Rotations.{clone_lem}
use iavl.MutableTree.Balancing.{rebalance_lem}

module _ (ndb : NodeDb) where
  -- What `recursiveRemove` answers, beside what the reference does.
  abbrev pub Answers : Result (Removed ndb) → Removal → Type 0
  Answers res absent = (n : Node) × (res ≡ ok (n, none, none, false))
  Answers res (gone v) = res ≡ ok (nil, none, some v, true)
  Answers res (kept t new_key v) =
      (n : Node) × (res ≡ ok (n, new_key, some v, true)) × Represents ndb t n

  Answers-left :
      (f : Fields) (a b : Node) (k : Bytes) (l r : Tree) (m : Result (Removed ndb)) (res : Removal)
      → f.key ≡ k
      → is_some f.node_key ≡ false
      → Represents ndb r b
      → IsBalanced (inner k l r)
      → size (inner k l r) < two_63
      → SmallerBy l res
      → ShrunkTo l res
      → Answers m res
      → Answers (m >>= after_remove_left ndb (node f a b)) (remove_left k r res)
  unfolding after_remove_left remove_left
  Answers-left f a b k l r m absent e s rb bal fits small low (n, q) = (node f a b, rw q)
  Answers-left f a b k l r m (gone v) e s rb bal fits small low q =
      (b, rw q (unfold is_nil in ap (λ x. ok (b, some x, some v, true)) e), rb)
  Answers-left f a b k l r m (kept l' new_key v) e s rb bal fits small low (n, q, rep) =
      let h_l = height-lt 63 l bal.2 (omega arith) in
      let h_r = height-lt 63 r bal.3 (omega arith) in
      let y = rebalance_lem ndb f n b k l' r e s rep rb (omega arith) (omega arith) (omega arith) in
      (
        y.n,
        rw q (
            rw (is_nil-Represents ndb l' n rep) (
              >>=-chain (calc_height_and_size ndb (node f n b)) (balance ndb)
                (λ n. ok (n, new_key, some v, true)) y.result)),
        y.rep,
      )

  Answers-right :
      (f : Fields) (a b : Node) (k : Bytes) (l r : Tree) (m : Result (Removed ndb)) (res : Removal)
      → f.key ≡ k
      → is_some f.node_key ≡ false
      → Represents ndb l a
      → IsBalanced (inner k l r)
      → size (inner k l r) < two_63
      → SmallerBy r res
      → ShrunkTo r res
      → Answers m res
      → Answers (m >>= after_remove_right ndb (node f a b)) (remove_right k l res)
  unfolding after_remove_right remove_right
  Answers-right f a b k l r m absent e s ra bal fits small low (n, q) = (node f a b, rw q)
  Answers-right f a b k l r m (gone v) e s ra bal fits small low q =
      (a, rw q (unfold is_nil in refl), ra)
  Answers-right f a b k l r m (kept r' new_key v) e s ra bal fits small low (n, q, rep) =
      let h_l = height-lt 63 l bal.2 (omega arith) in
      let h_r = height-lt 63 r bal.3 (omega arith) in
      let f' : Fields = record f { key = get_or new_key f.key } in
      let y =
        rebalance_lem ndb f' a n (get_or new_key k) l r' (ap (get_or new_key) e) s ra rep
          (omega arith) (omega arith) (omega arith) in
      (
        y.n,
        rw q (
            rw (is_nil-Represents ndb r' n rep) (
              >>=-chain (calc_height_and_size ndb (node f' a n)) (balance ndb)
                (λ n. ok (n, none, some v, true)) y.result)),
        y.rep,
      )

  remove_leaf_lem :
      (f : Fields) (k w x : Bytes)
      → f.key ≡ k
      → f.value ≡ some w
      → Answers
          (ok (
            if equal_bytes x f.key
            then (nil, none, f.value, true)
            else (node f nil nil, none, none, false)))
          (if equal_bytes x k then gone w else absent)
  remove_leaf_lem f k w x e e_v = elim (Bool-cases (equal_bytes x k)) [
    | inl c ↦ let c' = ap (equal_bytes x) e ∙ c in rw c (ground arith)
    | inr c ↦ let c' = ap (equal_bytes x) e ∙ c in rw c (node f nil nil, ground arith)
  ]

  pub recursive_remove_lem :
      (t : Tree) (n : Node) (fuel : ℕ) (x : Bytes)
      → Represents ndb t n
      → IsBalanced t
      → size t < two_63
      → height t < fuel
      → Answers (recursive_remove ndb fuel n x) (Avl.remove t x)
  unfolding recursive_remove Avl.remove
  recursive_remove_lem t n zero x rep bal fits h = absurd (omega arith)
  recursive_remove_lem t n (suc fuel) x (at_leaf {f = f} {k = k} {v = w} e e_v e_1 e_0) bal fits h =
      let lf : is_leaf f ≡ true = ground arith in rw lf (remove_leaf_lem f k w x e e_v)
  recursive_remove_lem t n (suc fuel) x
        (at_inner {f = f} {k = k} {l = l} {r = r} {a = a} {b = b} e e_s e_h ma mb la lb rl rr) bal
        fits h =
      let inn : is_leaf f ≡ false = ground arith in
      let c = clone_lem ndb k l r (node f a b) (at_inner e e_s e_h ma mb la lb rl rr) in
      elim (Bool-cases (lt_bytes x k)) [
        | inl lt ↦
            let ih = recursive_remove_lem l c.a fuel x c.left bal.2 (omega arith) (omega arith) in
            let key : lt_bytes x c.f.key ≡ true = ap (lt_bytes x) c.key ∙ lt in
            rw (inn, c.result)
              (rw (key, lt, ◌>>=◌, Avl.remove)
                (Answers-left c.f c.a c.b k l r (recursive_remove ndb fuel c.a x) (Avl.remove l x)
                  c.key c.unsaved c.right bal fits (size-remove l x) (remove-Shrunk l x bal.2) ih))
        | inr ge ↦
            let ih = recursive_remove_lem r c.b fuel x c.right bal.3 (omega arith) (omega arith) in
            let key : lt_bytes x c.f.key ≡ false = ap (lt_bytes x) c.key ∙ ge in
            rw (inn, c.result)
              (rw (key, ge, ◌>>=◌, Avl.remove)
                (Answers-right c.f c.a c.b k l r (recursive_remove ndb fuel c.b x) (Avl.remove r x)
                  c.key c.unsaved c.left bal fits (size-remove r x) (remove-Shrunk r x bal.3) ih))
      ]
