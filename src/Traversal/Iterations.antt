-- ===== src/Traversal/Iterations.antt =====
-- node.go: the loop of `traverseInRange`, and immutable_tree.go: `IterateRange`.
use iavl.Prelude.{
  ℕ, zero, suc, ◌*◌, ◌<◌, ◌≡◌, ◌∙◌, refl, sym, ap, List, [], ◌∷◌, ◌++◌, Bool, true, false, Option,
  some, ◌==◌, if◌then◌else◌, arith, append-nil, length, Bool-cases, inl, inr, Result, ok, subst,
}
use iavl.Bytes.{Bytes}
use iavl.Avl.{Tree, leaf, inner, Entry, size}
use iavl.Avl.Lookup.{length-to_list}
use iavl.Node.{Node, nil, node, NodeDb}
use iavl.ImmutableTree.{ImmutableTree, is_nil}
use iavl.ImmutableTree.Reads.{Holds, holds_nil, holds_tree, is_nil-Represents}
use iavl.Traversal.{
  next, on_leaf, visit, traverse_loop, traverse_in_range, iterate_range, new_traversal,
}
use iavl.Traversal.Ranges.{range_of, inside, select, in_direction, range_of-select}
use iavl.Traversal.Steps.{
  weight, weights, Stacked, ranges, at_stack, Visits, visits_none, visits_leaf, visits_inner,
  next_lem,
}

-- The leaves among the nodes that were visited, as the callback gets them.
abbrev pub leaf_entries : List Node → List (Bytes × Option Bytes)
leaf_entries [] = []
leaf_entries (nil ∷ ns) = leaf_entries ns
leaf_entries (node f a b ∷ ns) =
    if f.subtree_height == 0 then (f.key, f.value) ∷ leaf_entries ns else leaf_entries ns

-- Calls on the entries one after the other, until one answers true.
abbrev pub calls : (Bytes → Option Bytes → Bool) → List Entry → List (Bytes × Option Bytes) × Bool
calls fn [] = ([], false)
calls fn ((k, v) ∷ m) =
    if fn k (some v)
    then ((k, some v) ∷ [], true)
    else ((k, some v) ∷ (calls fn m).0, (calls fn m).1)

weight-size : (t : Tree) → weight t < 2 * size t
weight-size (leaf k v) = omega arith
weight-size (inner k l r) = omega (arith, weight-size l, weight-size r)

module _ (ndb : NodeDb) (start end : Option Bytes) (inclusive ascending : Bool) (limit : ℕ)
    (fn : Bytes → Option Bytes → Bool) where
  record Called (res : Result (List Node × Bool)) (entries : List Entry) : Type 0 where
    pub visited : List Node
    pub result : res ≡ ok (visited, (calls fn entries).1)
    pub leaves : leaf_entries visited ≡ (calls fn entries).0

  step_lem :
      (fuel : ℕ) (nodes : List (Node × Bool)) (entries : List Entry) (w : ℕ)
      → Visits ndb start end inclusive ascending
          (next ndb limit (at_stack ndb start end inclusive ascending nodes))
          entries
          w
      → w < limit
      → w < suc fuel
      → ((nodes' : List (Node × Bool)) (ts : List Tree)
          → Stacked ndb start end inclusive nodes' ts
          → weights ts < limit
          → weights ts < fuel
          → Called
              (traverse_loop ndb limit fuel
                (at_stack ndb start end inclusive ascending nodes')
                (on_leaf ndb fn))
              (ranges ndb start end inclusive ascending ts))
      → Called
          (traverse_loop ndb limit
            (suc fuel)
            (at_stack ndb start end inclusive ascending nodes)
            (on_leaf ndb fn))
          entries
  unfolding traverse_loop visit is_nil
  step_lem fuel nodes entries w (visits_none q e) h k next_calls = record {
    visited = [];
    result = rw (q, e) refl;
    leaves = rw e refl;
  }
  step_lem fuel nodes entries w (visits_leaf f nodes' ts x v q e_k e_v e_h st less e) h k
        next_calls =
      let ih = next_calls nodes' ts st (omega arith) (omega arith) in
      let same : fn f.key f.value ≡ fn x (some v) = rw (e_k, e_v) refl in
      elim (Bool-cases (fn x (some v))) [
        | inl stops ↦ record {
          visited = node f nil nil ∷ [];
          result = rw (q, e, e_h, same, stops) refl;
          leaves = rw (e_h, e, stops, e_k, e_v) refl;
        }
        | inr goes ↦ record {
          visited = node f nil nil ∷ ih.visited;
          result = rw (q, e, e_h, same, goes, ih.result) refl;
          leaves = rw (e_h, e, goes, ih.leaves, e_k, e_v) refl;
        }
      ]
  step_lem fuel nodes entries w (visits_inner f a b nodes' ts q e_h st less e) h k next_calls =
      let ih = next_calls nodes' ts st (omega arith) (omega arith) in
      record {
        visited = node f a b ∷ ih.visited;
        result = rw (q, e, e_h, ih.result) refl;
        leaves = rw (e_h, e) ih.leaves;
      }

  loop_lem :
      (fuel : ℕ) (nodes : List (Node × Bool)) (ts : List Tree)
      → Stacked ndb start end inclusive nodes ts
      → weights ts < limit
      → weights ts < fuel
      → Called
          (traverse_loop ndb limit fuel
            (at_stack ndb start end inclusive ascending nodes)
            (on_leaf ndb fn))
          (ranges ndb start end inclusive ascending ts)
  loop_lem zero nodes ts st h k = absurd (omega arith)
  loop_lem (suc fuel) nodes ts st h k =
      step_lem fuel nodes (ranges ndb start end inclusive ascending ts) (weights ts)
        (next_lem ndb start end inclusive ascending limit nodes ts st h) h k (loop_lem fuel)

in_direction-nil : (ascending : Bool) → in_direction {A = Entry} ascending [] ≡ []
in_direction-nil true = refl
in_direction-nil false = refl

iterate_root :
    (ndb : NodeDb) (start end : Option Bytes) (ascending : Bool) (fn : Bytes → Option Bytes → Bool)
    (fuel : ℕ) (n : Node) (t : ImmutableTree) (m : List Entry)
    → t.root ≡ n
    → Holds ndb n m
    → 2 * length m < fuel
    → (visited : List Node) × (iterate_range ndb fuel t start end ascending fn
        ≡ ok (
          visited,
          (calls fn (in_direction ascending (select (λ e. inside start end false e.0) m))).1,
        ))
      × (leaf_entries visited
          ≡ (calls fn (in_direction ascending (select (λ e. inside start end false e.0) m))).0)
unfolding iterate_range traverse_in_range new_traversal
iterate_root ndb start end ascending fn fuel n t m q holds_nil k =
    let none_left = in_direction-nil ascending in
    ([], rw (q, none_left) (unfold is_nil in refl), rw none_left refl)
iterate_root ndb start end ascending fn fuel n t m q (holds_tree u rep o b s e) k =
    let light = weight-size u in
    let c =
      loop_lem ndb start end false ascending fuel fn fuel ((n, true) ∷ []) (u ∷ []) (rep, o, tt)
        (omega (arith, length-to_list u, ap length e))
        (omega (arith, length-to_list u, ap length e)) in
    let same : range_of start end false ascending u ++ []
        ≡ in_direction ascending (select (λ e. inside start end false e.0) m) =
      append-nil (range_of start end false ascending u)
      ∙ range_of-select start end false ascending u
      ∙ ap (λ m. in_direction ascending (select (λ e. inside start end false e.0) m)) (sym e) in
    (
      c.visited,
      rw (q, is_nil-Represents ndb u n rep)
          (subst
            (λ l.
              traverse_loop ndb fuel fuel (at_stack ndb start end false ascending ((n, true) ∷ []))
                (on_leaf ndb fn)
              ≡ ok (c.visited, (calls fn l).1))
            same c.result),
      subst (λ l. leaf_entries c.visited ≡ (calls fn l).0) same c.leaves,
    )

-- `IterateRange` over a tree that keeps the invariant ends within fuel of twice its entries, and
-- without an error: the callback is called on the entries whose keys are not below the start and
-- are below the end, in the order of the keys or backwards, up to the first call that answers
-- true, and the result says whether there was one.
pub iterate_range-Holds :
    (ndb : NodeDb) (t : ImmutableTree) (m : List Entry) (start end : Option Bytes)
    (ascending : Bool) (fn : Bytes → Option Bytes → Bool) (fuel : ℕ)
    → Holds ndb t.root m
    → 2 * length m < fuel
    → (visited : List Node) × (iterate_range ndb fuel t start end ascending fn
        ≡ ok (
          visited,
          (calls fn (in_direction ascending (select (λ e. inside start end false e.0) m))).1,
        ))
      × (leaf_entries visited
          ≡ (calls fn (in_direction ascending (select (λ e. inside start end false e.0) m))).0)
iterate_range-Holds ndb t m start end ascending fn fuel h k =
    iterate_root ndb start end ascending fn fuel t.root t m refl h k
