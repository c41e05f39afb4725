-- ===== src/Traversal/Steps.antt =====
-- iterator.go: one call of `next`, on delayed nodes that stand for reference trees.
use iavl.Prelude.{
  ℕ, zero, suc, ◌+◌, ◌<◌, ◌≤◌, ◌≡◌, ◌∙◌, refl, sym, List, [], ◌∷◌, ◌++◌, Bool, true, false, Option,
  some, ◌==◌, arith, append_assoc, append-nil, Bool-cases, inl, inr, Result, ok, subst,
}
use iavl.Bytes.{Bytes}
use iavl.Avl.{Tree, leaf, inner, Entry, IsOrdered}
use iavl.Node.{Node, nil, node, Fields, NodeDb, is_leaf, child, get_left_node, get_right_node}
use iavl.Node.Represents.{Represents, at_leaf, at_inner}
use iavl.ImmutableTree.{is_nil}
use iavl.Traversal.{
  Traversal, next, after_start, before_end, push_children, push_left, push_right, push,
}
use iavl.Traversal.Ranges.{range_of, inside, left_out, right_out}

-- The calls of `next` that a tree takes.
abbrev pub weight : Tree → ℕ
weight (leaf k v) = 1
weight (inner k l r) = suc (weight l + weight r)

abbrev pub weights : List Tree → ℕ
weights [] = 0
weights (t ∷ ts) = weight t + weights ts

module _ (ndb : NodeDb) (start end : Option Bytes) (inclusive : Bool) where
  abbrev pub Stacked : List (Node × Bool) → List Tree → Type 0
  Stacked [] [] = Unit
  Stacked [] (t ∷ ts) = ⊥
  Stacked (p ∷ nodes) [] = ⊥
  Stacked ((n, true) ∷ nodes) (t ∷ ts) = Represents ndb t n × IsOrdered t × Stacked nodes ts
  Stacked ((n, false) ∷ nodes) (t ∷ ts) = ⊥

  abbrev pub ranges : Bool → List Tree → List Entry
  ranges ascending [] = []
  ranges ascending (t ∷ ts) = range_of start end inclusive ascending t ++ ranges ascending ts

  abbrev pub at_stack : Bool → List (Node × Bool) → Traversal
  at_stack ascending nodes = record {
    start = start;
    end = end;
    ascending = ascending;
    inclusive = inclusive;
    post = false;
    delayed_nodes = nodes;
  }

  -- What a call of `next` gives, of the entries that are left.
  pub data Visits (ascending : Bool) (res : Result (Node × Traversal)) (entries : List Entry)
      (w : ℕ) : Type 0 where
    visits_none :
        {t : Traversal} → res ≡ ok (nil, t) → entries ≡ [] → Visits ascending res entries w
    visits_leaf :
        (f : Fields) (nodes : List (Node × Bool)) (ts : List Tree) (k v : Bytes)
        → res ≡ ok (node f nil nil, at_stack ascending nodes)
        → f.key ≡ k
        → f.value ≡ some v
        → (f.subtree_height == 0) ≡ true
        → Stacked nodes ts
        → weights ts < w
        → entries ≡ (k, v) ∷ ranges ascending ts
        → Visits ascending res entries w
    visits_inner :
        (f : Fields) (a b : Node) (nodes : List (Node × Bool)) (ts : List Tree)
        → res ≡ ok (node f a b, at_stack ascending nodes)
        → (f.subtree_height == 0) ≡ false
        → Stacked nodes ts
        → weights ts < w
        → entries ≡ ranges ascending ts
        → Visits ascending res entries w

  -- The children of an inner node, where entries may be in the range.
  record Pushed (ascending : Bool) (res : Result (List (Node × Bool))) (k : Bytes) (l r : Tree)
      (ts : List Tree) : Type 0 where
    pub nodes : List (Node × Bool)
    pub trees : List Tree
    pub result : res ≡ ok nodes
    pub stacked : Stacked nodes trees
    pub lighter : weights trees ≤ weight l + weight r + weights ts
    pub same :
        ranges ascending trees
        ≡ range_of start end inclusive ascending (inner k l r) ++ ranges ascending ts

  module _ (f : Fields) (a b m n : Node) (k : Bytes) (l r : Tree) (nodes : List (Node × Bool))
      (ts : List Tree) (la : child ndb a f.left_node_key ≡ ok m)
      (lb : child ndb b f.right_node_key ≡ ok n) (rl : Represents ndb l m) (rr : Represents ndb r n)
      (ol : IsOrdered l) (or : IsOrdered r) (st : Stacked nodes ts) where
    Pushed-cases :
        (ascending after before : Bool)
        → (after ≡ false → range_of start end inclusive ascending l ≡ [])
        → (before ≡ false → range_of start end inclusive ascending r ≡ [])
        → Pushed ascending (push_children ndb ascending after before (node f a b) nodes) k l r ts
    unfolding push_children push_left push_right push get_left_node get_right_node
    Pushed-cases true true true hl hr = record {
      nodes = (m, true) ∷ (n, true) ∷ nodes;
      trees = l ∷ r ∷ ts;
      result = rw (lb, la) refl;
      stacked = (rl, ol, (rr, or, st));
      lighter = omega arith;
      same = sym (
          append_assoc (range_of start end inclusive true l) (range_of start end inclusive true r)
            (ranges true ts));
    }
    Pushed-cases true true false hl hr = record {
      nodes = (m, true) ∷ nodes;
      trees = l ∷ ts;
      result = rw la refl;
      stacked = (rl, ol, st);
      lighter = omega arith;
      same = rw (hr refl, append-nil (range_of start end inclusive true l)) refl;
    }
    Pushed-cases true false true hl hr = record {
      nodes = (n, true) ∷ nodes;
      trees = r ∷ ts;
      result = rw lb refl;
      stacked = (rr, or, st);
      lighter = omega arith;
      same = rw (hl refl) refl;
    }
    Pushed-cases true false false hl hr = record {
      nodes = nodes;
      trees = ts;
      result = refl;
      stacked = st;
      lighter = omega arith;
      same = rw (hl refl, hr refl) refl;
    }
    Pushed-cases false true true hl hr = record {
      nodes = (n, true) ∷ (m, true) ∷ nodes;
      trees = r ∷ l ∷ ts;
      result = rw (la, lb) refl;
      stacked = (rr, or, (rl, ol, st));
      lighter = omega arith;
      same = sym (
          append_assoc (range_of start end inclusive false r) (range_of start end inclusive false l)
            (ranges false ts));
    }
    Pushed-cases false true false hl hr = record {
      nodes = (m, true) ∷ nodes;
      trees = l ∷ ts;
      result = rw la refl;
      stacked = (rl, ol, st);
      lighter = omega arith;
      same = rw (hr refl) refl;
    }
    Pushed-cases false false true hl hr = record {
      nodes = (n, true) ∷ nodes;
      trees = r ∷ ts;
      result = rw lb refl;
      stacked = (rr, or, st);
      lighter = omega arith;
      same = rw (hl refl, append-nil (range_of start end inclusive false r)) refl;
    }
    Pushed-cases false false false hl hr = record {
      nodes = nodes;
      trees = ts;
      result = refl;
      stacked = st;
      lighter = omega arith;
      same = rw (hl refl, hr refl) refl;
    }

  heavier :
      (ascending : Bool) (res : Result (Node × Traversal)) (entries : List Entry) (v w : ℕ)
      → Visits ascending res entries v
      → v ≤ w
      → Visits ascending res entries w
  heavier ascending res entries v w (visits_none q e) h = visits_none q e
  heavier ascending res entries v w (visits_leaf f nodes ts k x q e_k e_v e_h st less e) h =
      visits_leaf f nodes ts k x q e_k e_v e_h st (omega arith) e
  heavier ascending res entries v w (visits_inner f a b nodes ts q e_h st less e) h =
      visits_inner f a b nodes ts q e_h st (omega arith) e

  pub next_lem :
      (ascending : Bool) (fuel : ℕ) (nodes : List (Node × Bool)) (ts : List Tree)
      → Stacked nodes ts
      → weights ts < fuel
      → Visits ascending
          (next ndb fuel (at_stack ascending nodes))
          (ranges ascending ts)
          (weights ts)
  unfolding next is_nil
  next_lem ascending zero nodes ts st h = absurd (omega arith)
  next_lem ascending (suc fuel) [] [] st h = visits_none refl refl
  next_lem ascending (suc fuel) [] (t ∷ ts) st h = absurd st
  next_lem ascending (suc fuel) (p ∷ nodes) [] st h = absurd st
  next_lem ascending (suc fuel) ((n, false) ∷ nodes) (t ∷ ts) st h = absurd st
  next_lem ascending (suc fuel) ((n, true) ∷ nodes) (leaf k v ∷ ts)
        (at_leaf {f = f} e_k e_v e_1 e_0, o, st) h =
      let lf : is_leaf f ≡ true = ground arith in
      elim (Bool-cases (inside start end inclusive f.key)) [
        | inl within ↦
            let within' : inside start end inclusive k ≡ true =
              subst (λ x. inside start end inclusive x ≡ true) e_k within in
            visits_leaf f nodes ts k v (rw (lf, within) refl) e_k e_v lf st (omega arith)
              (rw within' refl)
        | inr without ↦
            let without' : inside start end inclusive k ≡ false =
              subst (λ x. inside start end inclusive x ≡ false) e_k without in
            rw (lf, without, without')
              (heavier ascending (next ndb fuel (at_stack ascending nodes)) (ranges ascending ts)
                (weights ts) (1 + weights ts) (next_lem ascending fuel nodes ts st (omega arith))
                (omega arith))
      ]
  next_lem ascending (suc fuel) ((n, true) ∷ nodes) (inner k l r ∷ ts)
        (
          at_inner {f = f} {a = a} {b = b} {m = m} {n = c} e_k e_s e_h ma mb la lb rl rr,
          (h_l, q, ol, or),
          st,
        )
        h =
      let inn : is_leaf f ≡ false = ground arith in
      let p =
        Pushed-cases f a b m c k l r nodes ts la lb rl rr ol or st ascending
          (after_start start f.key) (before_end end inclusive f.key)
          (λ e.
            left_out start end inclusive ascending l k h_l
              (subst (λ x. after_start start x ≡ false) e_k e))
          (λ e.
            right_out start end inclusive ascending r or
              (subst (λ x. before_end end inclusive x ≡ false) (e_k ∙ q) e)) in
      let lighter = p.lighter in
      visits_inner f a b p.nodes p.trees (rw (inn, p.result) refl) inn p.stacked (omega arith)
        (sym p.same)
