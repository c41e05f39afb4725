-- ===== src/Node/Reads.antt =====
-- node.go: `get`, `has` and `getByIndex` on a node that stands for a reference tree.
use iavl.Prelude.{
  ℕ, zero, suc, ◌+◌, ◌-◌, ◌%◌, ◌<◌, ◌≤◌, ◌≡◌, true, false, Option, none, some, is_some, ok, arith,
  List, [], ◌++◌, get_elem?, get_elem?-append_left, get_elem?-append_right, get_elem?-beyond,
  length, length-append, ap, sym, ◌∙◌, append-nil, ◌⊎◌, inl, inr,
}
use iavl.Prelude.Words.{two_63, two_64, lt_int64}
use iavl.Bytes.{Bytes}
use iavl.Bytes.Order.{gt_of_lt, lt_of_gt, eq_of_compare, compare_refl}
use iavl.Avl.{Tree, Entry, height, size, to_list, IsOrdered}
use iavl.Avl.Sorted.{find, rank}
use iavl.Avl.Lookup.{
  find-left, find-right, rank-left, rank-right, rank-le, length-to_list, find-min_key,
}
use iavl.Node.{Node, NodeDb, get, has, get_by_index}
use iavl.Node.Represents.{Represents, at_leaf, at_inner, cached}

-- The entry at an index, as `get_by_index` returns it.
abbrev pub entry_of : Option Entry → Option (Bytes × Option Bytes)
entry_of none = none
entry_of (some e) = some (e.0, some (e.1))

abbrev pub entry_at : List Entry → ℕ → Option (Bytes × Option Bytes)
entry_at m i = entry_of (get_elem? m i)

entry_at_left :
    (l r : Tree) (i : ℕ)
    → lt_int64 i (size l) ≡ true
    → size l + size r < two_63
    → i < two_64
    → entry_at (to_list l ++ to_list r) i ≡ entry_at (to_list l) i
entry_at_left l r i lt s hi = elim (cases i (size l)) [
  | inl h ↦
      ap entry_of
        (get_elem?-append_left (to_list l) (to_list r) i (omega (arith, length-to_list l)))
  | inr h ↦
      let big : two_63 ≤ i = ground arith in
      ap entry_of (
        get_elem?-beyond (to_list l ++ to_list r) i
          (omega (arith, length-append (to_list l) (to_list r), length-to_list l, length-to_list r))
        ∙ sym (get_elem?-beyond (to_list l) i (omega (arith, length-to_list l))))
]
  where
    cases : (a b : ℕ) → (a < b) ⊎ (b ≤ a)
    cases a b = omega arith

entry_at_right :
    (l r : Tree) (i : ℕ)
    → lt_int64 i (size l) ≡ false
    → size l + size r < two_63
    → i < two_64
    → entry_at (to_list l ++ to_list r) i ≡ entry_at (to_list r) ((i + two_64 - size l) % two_64)
entry_at_right l r i lt s hi =
    let ge : size l ≤ i = ground arith in
    let small : i < two_63 = ground arith in
    let split : i ≡ length (to_list l) + (i + two_64 - size l) % two_64 =
      omega (arith, length-to_list l) in
    ap entry_of (
      ap (get_elem? (to_list l ++ to_list r)) split
      ∙ get_elem?-append_right (to_list l) (to_list r) ((i + two_64 - size l) % two_64))

module _ (ndb : NodeDb) where
  pub get_lem :
      (t : Tree) (n : Node) (fuel : ℕ) (x : Bytes)
      → Represents ndb t n
      → IsOrdered t
      → size t < two_63
      → height t < fuel
      → get ndb fuel n x ≡ ok (rank x (to_list t), find x (to_list t))
  unfolding get
  get_lem t n zero x rep o s h = absurd (omega arith)
  get_lem t n (suc fuel) x (at_leaf {f = f} {k = k} e v e_1 e_0) o s h =
      unfold rank find in
      ground (
        arith,
        gt_of_lt x k,
        lt_of_gt x k,
        eq_of_compare x k,
        eq_of_compare k x,
        gt_of_lt k x,
        lt_of_gt k x,
        compare_refl k,
      )
  get_lem t n (suc fuel) x
        (at_inner {f = f} {k = k} {l = l} {r = r} {a = a} {b = b} {m = m} {n = n'} e e_s e_h ma mb
          la lb rl rr)
        o s h =
      let c = cached ndb r n' rr in
      ground (
        arith,
        get_lem l m fuel x rl o.2 (omega arith) (omega arith),
        get_lem r n' fuel x rr o.3 (omega arith) (omega arith),
        find-left k l r x o,
        find-right k l r x o,
        rank-left k l r x o,
        rank-right k l r x o,
        rank-le x (to_list r),
        length-to_list r,
        c.read,
        c.size_ok,
      )

  pub has_lem :
      (t : Tree) (n : Node) (fuel : ℕ) (x : Bytes)
      → Represents ndb t n
      → IsOrdered t
      → height t < fuel
      → has ndb fuel n x ≡ ok (is_some (find x (to_list t)))
  unfolding has
  has_lem t n zero x rep o h = absurd (omega arith)
  has_lem t n (suc fuel) x (at_leaf {f = f} {k = k} e v e_1 e_0) o h =
      unfold find in
      ground (
        arith,
        gt_of_lt x k,
        lt_of_gt x k,
        eq_of_compare x k,
        eq_of_compare k x,
        gt_of_lt k x,
        lt_of_gt k x,
        compare_refl k,
      )
  has_lem t n (suc fuel) x
        (at_inner {k = k} {l = l} {r = r} {m = m} {n = n'} e e_s e_h ma mb la lb rl rr) o h =
      ground (
        arith,
        has_lem l m fuel x rl o.2 (omega arith),
        has_lem r n' fuel x rr o.3 (omega arith),
        find-left k l r x o,
        find-right k l r x o,
        eq_of_compare k x,
        compare_refl k,
        find-min_key r [],
        append-nil (to_list r),
        o.1,
      )

  pub get_by_index_lem :
      (t : Tree) (n : Node) (fuel i : ℕ)
      → Represents ndb t n
      → size t < two_63
      → i < two_64
      → height t < fuel
      → get_by_index ndb fuel n i ≡ ok (entry_at (to_list t) i)
  unfolding get_by_index
  get_by_index_lem t n zero i rep s hi h = absurd (omega arith)
  get_by_index_lem t n (suc fuel) zero (at_leaf {f = f} {k = k} e v e_1 e_0) s hi h = ground arith
  get_by_index_lem t n (suc fuel) (suc i) (at_leaf {f = f} {k = k} e v e_1 e_0) s hi h =
      ground arith
  get_by_index_lem t n (suc fuel) i
        (at_inner {k = k} {l = l} {r = r} {m = m} {n = n'} e e_s e_h ma mb la lb rl rr) s hi h =
      let c = cached ndb l m rl in
      let j = (i + two_64 - size l) % two_64 in
      ground (
        arith,
        get_by_index_lem l m fuel i rl (omega arith) hi (omega arith),
        get_by_index_lem r n' fuel j rr (omega arith) (omega arith) (omega arith),
        entry_at_left l r i,
        entry_at_right l r i,
        c.read,
        c.size_ok,
      )
