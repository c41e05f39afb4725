-- ===== src/UnsavedFastIterator/Sorting.antt =====
-- unsaved_fast_iterator.go: the keys of the additions, sorted, and their fast nodes.
use iavl.Prelude.{
  suc, length, ◌≡◌, refl, sym, ap, ◌∙◌, List, [], ◌∷◌, All, All-imp, Bool, true, false, none,
  if◌then◌else◌, arith, Bool-cases, inl, inr,
}
use iavl.Bytes.{Bytes, equal_bytes}
use iavl.Bytes.Map.{load}
use iavl.Bytes.Order.{eq_of_compare, compare_refl, lt_of_gt, gt_of_lt}
use iavl.FastNode.{FastNode}
use iavl.Avl.{Entry}
use iavl.Directions.{InOrder, Precedes, Precedes-trans}
use iavl.UnsavedFastIterator.{less, insert_key, sort_slice}
use iavl.UnsavedFastIterator.Steps.{entry_of, entries, node_keys}
use iavl.UnsavedFastIterator.Additions.{load-hit, load-miss, Once}

abbrev insert_node : Bool → FastNode → List FastNode → List FastNode
insert_node ascending n [] = n ∷ []
insert_node ascending n (x ∷ l) =
    let rest = insert_node ascending n l in
    if less ascending x.key n.key then x ∷ rest else n ∷ x ∷ l

abbrev pub sort_nodes : Bool → List FastNode → List FastNode
sort_nodes ascending [] = []
sort_nodes ascending (n ∷ l) = insert_node ascending n (sort_nodes ascending l)

node_keys-insert_node :
    (ascending : Bool) (n : FastNode) (l : List FastNode)
    → insert_key ascending n.key (node_keys l) ≡ node_keys (insert_node ascending n l)
unfolding insert_key
node_keys-insert_node ascending n [] = refl
node_keys-insert_node ascending n (x ∷ l) = elim (Bool-cases (less ascending x.key n.key)) [
  | inl c ↦ rw c (ap (λ r. x.key ∷ r) (node_keys-insert_node ascending n l))
  | inr c ↦ rw c refl
]

pub node_keys-sort_nodes :
    (ascending : Bool) (l : List FastNode)
    → sort_slice ascending (node_keys l) ≡ node_keys (sort_nodes ascending l)
unfolding sort_slice
node_keys-sort_nodes ascending [] = refl
node_keys-sort_nodes ascending (n ∷ l) =
    ap (insert_key ascending n.key) (node_keys-sort_nodes ascending l)
    ∙ node_keys-insert_node ascending n (sort_nodes ascending l)

All-insert_node {κ} :
    (P : FastNode → Type κ) (ascending : Bool) (n : FastNode) (l : List FastNode)
    → P n
    → All P l
    → All P (insert_node ascending n l)
All-insert_node P ascending n [] p h = (p, tt)
All-insert_node P ascending n (x ∷ l) p (q, h) = elim (Bool-cases (less ascending x.key n.key)) [
  | inl c ↦ rw c (q, All-insert_node P ascending n l p h)
  | inr c ↦ rw c (p, (q, h))
]

pub All-sort_nodes {κ} :
    (P : FastNode → Type κ) (ascending : Bool) (l : List FastNode)
    → All P l
    → All P (sort_nodes ascending l)
All-sort_nodes P ascending [] h = tt
All-sort_nodes P ascending (n ∷ l) (p, h) =
    All-insert_node P ascending n (sort_nodes ascending l) p (All-sort_nodes P ascending l h)

load-insert_node :
    (ascending : Bool) (n : FastNode) (l : List FastNode) (k : Bytes)
    → load n.key (entries l) ≡ none
    → load k (entries (insert_node ascending n l)) ≡ load k (entry_of n ∷ entries l)
unfolding load
load-insert_node ascending n [] k h = refl
load-insert_node ascending n (x ∷ l) k h = elim (Bool-cases (less ascending x.key n.key)) [
  | inr c ↦ rw c refl
  | inl c ↦ rw c (
      ground (
        arith,
        load-insert_node ascending n l k,
        eq_of_compare k x.key,
        eq_of_compare k n.key,
        eq_of_compare n.key x.key,
        compare_refl n.key,
        compare_refl k,
      ))
]

pub load-sort_nodes :
    (ascending : Bool) (l : List FastNode) (k : Bytes)
    → Once l
    → load k (entries (sort_nodes ascending l)) ≡ load k (entries l)
load-sort_nodes ascending [] k h = refl
load-sort_nodes ascending (n ∷ l) k (fresh, h) =
    load-insert_node ascending n (sort_nodes ascending l) k
      (load-sort_nodes ascending l n.key h ∙ fresh)
    ∙ elim (Bool-cases (equal_bytes k n.key)) [
      | inl c ↦ load-hit k n.key n.value _ c ∙ sym (load-hit k n.key n.value (entries l) c)
      | inr c ↦
          load-miss k n.key n.value _ c
          ∙ load-sort_nodes ascending l k h
          ∙ sym (load-miss k n.key n.value (entries l) c)
    ]

All-insert_entries {κ} :
    (P : Entry → Type κ) (ascending : Bool) (n : FastNode) (l : List FastNode)
    → P (entry_of n)
    → All P (entries l)
    → All P (entries (insert_node ascending n l))
All-insert_entries P ascending n [] p h = (p, tt)
All-insert_entries P ascending n (x ∷ l) p (q, h) = elim (Bool-cases (less ascending x.key n.key)) [
  | inl c ↦ rw c (q, All-insert_entries P ascending n l p h)
  | inr c ↦ rw c (p, (q, h))
]

less-Precedes :
    (ascending : Bool) (a b : Bytes) → less ascending a b ≡ true → Precedes ascending a b
unfolding less
less-Precedes true a b h = ground arith
less-Precedes false a b h = ground arith

not_less-Precedes :
    (ascending : Bool) (a b : Bytes)
    → less ascending a b ≡ false
    → equal_bytes b a ≡ false
    → Precedes ascending b a
unfolding less
not_less-Precedes true a b h e =
    ground (arith, lt_of_gt a b, gt_of_lt a b, lt_of_gt b a, eq_of_compare a b, compare_refl a)
not_less-Precedes false a b h e = ground (arith, lt_of_gt b a, eq_of_compare a b, compare_refl a)

absent_rest :
    (k : Bytes) (e : Entry) (l : List Entry)
    → load k (e ∷ l) ≡ none
    → (equal_bytes k e.0 ≡ false) × (load k l ≡ none)
unfolding load
absent_rest k (j, v) l h = ground arith

insert_node-InOrder :
    (ascending : Bool) (n : FastNode) (l : List FastNode)
    → load n.key (entries l) ≡ none
    → InOrder ascending (entries l)
    → InOrder ascending (entries (insert_node ascending n l))
insert_node-InOrder ascending n [] h q = (tt, tt)
insert_node-InOrder ascending n (x ∷ l) h (before, q) =
    let (other, absent) = absent_rest n.key (entry_of x) (entries l) h in
    elim (Bool-cases (less ascending x.key n.key)) [
      | inl c ↦ rw c (
        All-insert_entries (λ e. Precedes ascending x.key e.0) ascending n l
            (less-Precedes ascending x.key n.key c) before,
        insert_node-InOrder ascending n l absent q,
      )
      | inr c ↦
          let first = not_less-Precedes ascending x.key n.key c other in
          rw c (
            (
              first,
              All-imp (λ e r. Precedes-trans ascending n.key x.key e.0 first r) (entries l) before,
            ),
            (before, q),
          )
    ]

pub sort_nodes-InOrder :
    (ascending : Bool) (l : List FastNode)
    → Once l
    → InOrder ascending (entries (sort_nodes ascending l))
sort_nodes-InOrder ascending [] h = tt
sort_nodes-InOrder ascending (n ∷ l) (fresh, h) =
    insert_node-InOrder ascending n (sort_nodes ascending l)
      (load-sort_nodes ascending l n.key h ∙ fresh) (sort_nodes-InOrder ascending l h)

length-insert_node :
    (ascending : Bool) (n : FastNode) (l : List FastNode)
    → length (insert_node ascending n l) ≡ suc (length l)
length-insert_node ascending n [] = refl
length-insert_node ascending n (x ∷ l) = ground (arith, length-insert_node ascending n l)

pub length-sort_nodes :
    (ascending : Bool) (l : List FastNode) → length (sort_nodes ascending l) ≡ length l
length-sort_nodes ascending [] = refl
length-sort_nodes ascending (n ∷ l) =
    length-insert_node ascending n (sort_nodes ascending l) ∙ ap suc (length-sort_nodes ascending l)
