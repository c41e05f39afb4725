-- ===== src/MemDb/Iterations.antt =====
-- db/memdb.go: what an iterator over a range gives.
use iavl.Prelude.{
  ℕ, zero, suc, ◌≡◌, refl, sym, ap, ◌∙◌, List, [], ◌∷◌, All, All-imp, Bool, true, false, not, ◌&&◌,
  ◌||◌, Option, none, some, if◌then◌else◌, length, Result, ok, stuck, ◌>>=◌, arith, Bool-cases, inl,
  inr,
}
use mathlib.Core.List.{reverse}
use iavl.Bytes.{Bytes, compare_bytes, lt_bytes, equal_bytes}
use iavl.Bytes.Order.{lt_trans, eq_of_compare, compare_refl, lt_of_gt, gt_of_lt}
use iavl.Avl.{Entry, ◌≺◌}
use iavl.Traversal.{start_or_after, before_end}
use iavl.Traversal.Ranges.{select, in_direction, inside}
use iavl.Directions.{
  InOrder, in_direction-InOrder, select-InOrder, select-in_direction, select-select,
}
use iavl.MemDb.{
  BTree, MemDbIterator, valid, next, iterator_key, iterator_value, receive, sent, aborts, visited,
  new_iterator, iterator, is_empty,
}

-- `for ; itr.Valid(); itr.Next() { … itr.Key(), itr.Value() … }`, on fuel
unfoldable pub collect : ℕ → MemDbIterator → Result (List Entry)
collect zero i = stuck
collect (suc fuel) i = if not (valid i) then ok [] else (do
  key ← iterator_key i
  value ← iterator_value i
  i ← next i
  rest ← collect fuel i
  ok ((key, value) ∷ rest))

collect-receive :
    (i : MemDbIterator) (l : List Entry) → collect (suc (length l)) (receive i l) ≡ ok l
unfolding collect valid next iterator_key iterator_value
collect-receive i [] = refl
collect-receive i (e ∷ l) = rw (collect-receive (record i { ch = l; item = some e }) l) refl

collect_received :
    (i : MemDbIterator) (l : List Entry)
    → collect (suc (suc (length (receive i l).ch))) (receive i l) ≡ ok l
unfolding collect valid
collect_received i [] = refl
collect_received i (e ∷ l) = collect-receive i (e ∷ l)

sent_all : (l : List Entry) → sent none none l ≡ l
unfolding sent
sent_all [] = refl
sent_all (e ∷ l) = ap (λ m. e ∷ m) (sent_all l)

-- In a descending list, all that follows a key below the bound is below it.
stays_below :
    (start : Option Bytes) (k j : Bytes)
    → aborts start k ≡ true
    → j ≺ k
    → not (aborts start j) ≡ false
stays_below none k j h q = cc
stays_below (some a) k j h q = ground (arith, lt_trans j k a)

select_none :
    (test : Entry → Bool) (l : List Entry) → All (λ e. test e ≡ false) l → select test l ≡ []
select_none test [] h = refl
select_none test (x ∷ l) (p, h) = rw p (select_none test l h)

sent_to_start :
    (start : Option Bytes) (l : List Entry)
    → InOrder false l
    → sent none start l ≡ select (λ e. not (aborts start e.0)) l
unfolding sent
sent_to_start start [] h = refl
sent_to_start start (x ∷ l) (a, h) = elim (Bool-cases (aborts start x.0)) [
  | inl e ↦ rw e (
      sym (
        select_none (λ y. not (aborts start y.0)) l
          (All-imp (λ y q. stays_below start x.0 y.0 e q) l a)))
  | inr e ↦ rw e (ap (λ m. x ∷ m) (sent_to_start start l h))
]

pub select_eq :
    (p q : Entry → Bool) (l : List Entry) → ((e : Entry) → p e ≡ q e) → select p l ≡ select q l
select_eq p q [] h = refl
select_eq p q (x ∷ l) h = rw (h x, select_eq p q l h) refl

select-true : (p : Entry → Bool) (l : List Entry) → ((e : Entry) → p e ≡ true) → select p l ≡ l
select-true p [] h = refl
select-true p (x ∷ l) h = rw (h x) (ap (λ m. x ∷ m) (select-true p l h))

unequal_below : (k j end : Bytes) → equal_bytes k end ≡ true → j ≺ k → equal_bytes j end ≡ false
unequal_below k j end h q = ground (arith, eq_of_compare k end)

kept_below :
    (end : Bytes) (start : Option Bytes) (k : Bytes)
    → equal_bytes k end ≡ true
    → (l : List Entry) → All (λ y. y.0 ≺ k) l
    → select (λ e. not (aborts start e.0)) l
      ≡ select (λ e. not (equal_bytes e.0 end) && not (aborts start e.0)) l
kept_below end start k e [] a = refl
kept_below end start k e (y ∷ l) (p, a) =
    rw (unequal_below k y.0 end e p, kept_below end start k e l a) refl

aborted_below :
    (end : Bytes) (start : Option Bytes) (k : Bytes)
    → aborts start k ≡ true
    → (l : List Entry) → All (λ y. y.0 ≺ k) l
    → select (λ e. not (equal_bytes e.0 end) && not (aborts start e.0)) l ≡ []
aborted_below end start k e [] a = refl
aborted_below end start k e (y ∷ l) (p, a) =
    let out : (not (equal_bytes y.0 end) && not (aborts start y.0)) ≡ false =
      ground (arith, stays_below start k y.0 e p) in
    rw out (aborted_below end start k e l a)

sent_from_end :
    (end : Bytes) (start : Option Bytes) (l : List Entry)
    → InOrder false l
    → sent (some end) start l ≡ select (λ e. not (equal_bytes e.0 end) && not (aborts start e.0)) l
unfolding sent
sent_from_end end start [] h = refl
sent_from_end end start (x ∷ l) (a, h) = elim (Bool-cases (equal_bytes x.0 end)) [
  | inl e ↦ rw e (sent_to_start start l h ∙ kept_below end start x.0 e l a)
  | inr e ↦ rw e (elim (Bool-cases (aborts start x.0)) [
    | inl d ↦ rw d (sym (aborted_below end start x.0 d l a))
    | inr d ↦ rw d (ap (λ m. x ∷ m) (sent_from_end end start l h))
  ])
]

-- The tests of the visitor and of the tree are those of the range.
from_test : (a k : Bytes) → not (lt_bytes k a) ≡ inside (some a) none false k
unfolding start_or_after before_end
from_test a k = ground (arith, lt_of_gt k a, gt_of_lt k a, eq_of_compare k a, compare_refl k)

all_test : (k : Bytes) → inside none none false k ≡ true
unfolding start_or_after before_end
all_test k = refl

not_below_nil : (k : Bytes) → lt_bytes k [] ≡ false
unfolding compare_bytes
not_below_nil [] = refl
not_below_nil (x ∷ k) = refl

to_test : (b k : Bytes) → (not (lt_bytes k []) && lt_bytes k b) ≡ inside none (some b) false k
unfolding start_or_after before_end
to_test b k = ground (arith, not_below_nil k)

range_test :
    (a b k : Bytes) → (not (lt_bytes k a) && lt_bytes k b) ≡ inside (some a) (some b) false k
unfolding start_or_after before_end
range_test a b k = ground (arith, lt_of_gt k a, gt_of_lt k a, eq_of_compare k a, compare_refl k)

down_test :
    (start : Option Bytes) (b k : Bytes)
    → (not (lt_bytes b k) && (not (equal_bytes k b) && not (aborts start k)))
      ≡ inside start (some b) false k
unfolding start_or_after before_end
down_test none b k = ground (
  arith,
  lt_of_gt k b,
  gt_of_lt k b,
  lt_of_gt b k,
  gt_of_lt b k,
  eq_of_compare k b,
  compare_refl k,
)
down_test (some a) b k = ground (
  arith,
  lt_of_gt k b,
  gt_of_lt k b,
  lt_of_gt b k,
  gt_of_lt b k,
  eq_of_compare k b,
  compare_refl k,
  lt_of_gt k a,
  gt_of_lt k a,
  eq_of_compare k a,
)

module _ (B : BTree) where
  open B use {Items}

  visited_up :
      (db : Items) (l : List Entry) (p q : Entry → Bool)
      → l ≡ select p (B.ascend db)
      → ((e : Entry) → p e ≡ q e)
      → sent none none l ≡ select q (B.ascend db)
  visited_up db l p q h e = sent_all l ∙ h ∙ select_eq p q (B.ascend db) e

  backwards-InOrder : (db : Items) → InOrder false (reverse (B.ascend db))
  backwards-InOrder db = in_direction-InOrder false (B.ascend db) (B.ascend-IsSorted db)

  -- from the end of a range down to its start
  visited_down :
      (db : Items) (start : Option Bytes) (end : Bytes)
      → sent (some end) start (B.descend_less_or_equal db end)
        ≡ reverse (select (λ e. inside start (some end) false e.0) (B.ascend db))
  visited_down db start end =
      let m = B.ascend db in
      let q : Entry → Bool = λ e. not (lt_bytes end e.0) in
      let p : Entry → Bool = λ e. not (equal_bytes e.0 end) && not (aborts start e.0) in
      ap (sent (some end) start)
        (B.descend_less_or_equal-ascend db end ∙ sym (select-in_direction false q m))
      ∙ sent_from_end end start (select q (reverse m))
          (select-InOrder false q (reverse m) (backwards-InOrder db))
      ∙ select-select p q (reverse m)
      ∙ select-in_direction false (λ e. q e && p e) m
      ∙ ap reverse (
          select_eq (λ e. q e && p e) (λ e. inside start (some end) false e.0) m
            (λ e. down_test start end e.0))

  pub visited-select :
      (db : Items) (start end : Option Bytes) (backwards : Bool)
      → visited B db start end backwards
        ≡ in_direction (not backwards) (select (λ e. inside start end false e.0) (B.ascend db))
  unfolding visited
  visited-select db none none false =
      sent_all (B.ascend db) ∙ sym (select-true _ (B.ascend db) (λ e. all_test e.0))
  visited-select db none none true =
      sent_all (B.descend db)
      ∙ B.descend-ascend db
      ∙ ap reverse (sym (select-true _ (B.ascend db) (λ e. all_test e.0)))
  visited-select db (some start) none false =
      visited_up db _ _ _ (B.ascend_greater_or_equal-ascend db start) (λ e. from_test start e.0)
  visited-select db none (some end) false =
      visited_up db _ _ _ (B.ascend_range-ascend db [] end) (λ e. to_test end e.0)
  visited-select db (some start) (some end) false =
      visited_up db _ _ _ (B.ascend_range-ascend db start end) (λ e. range_test start end e.0)
  visited-select db (some start) none true =
      ap (sent none (some start)) (B.descend-ascend db)
      ∙ sent_to_start (some start) (reverse (B.ascend db)) (backwards-InOrder db)
      ∙ select-in_direction false (λ e. not (lt_bytes e.0 start)) (B.ascend db)
      ∙ ap reverse (select_eq _ _ (B.ascend db) (λ e. from_test start e.0))
  visited-select db none (some end) true = visited_down db none end
  visited-select db (some start) (some end) true = visited_down db (some start) end

  -- An iterator over a range whose ends are not empty, in either direction, gives the entries of the
  -- database from the start on and before the end, in ascending or in descending order of their
  -- keys, and then becomes invalid.
  pub collect-iterator :
      (db : Items) (start end : Option Bytes) (backwards : Bool)
      → (is_empty start || is_empty end) ≡ false
      → (i : MemDbIterator) × (iterator B db start end backwards ≡ ok i)
        × (collect (suc (suc (length i.ch))) i
            ≡ ok (
                in_direction
                  (not backwards)
                  (select (λ e. inside start end false e.0) (B.ascend db))))
  unfolding iterator new_iterator
  collect-iterator db start end backwards h = (
    new_iterator B db start end backwards,
    rw h refl,
    collected (visited B db start end backwards) ∙ ap ok (visited-select db start end backwards),
  )
    where
      collected :
          (l : List Entry)
          → collect
              (suc (
                suc (
                  length
                    (receive (record { ch = []; item = none; start = start; end = end }) l).ch)))
              (receive (record { ch = []; item = none; start = start; end = end }) l)
            ≡ ok l
      collected l = collect_received (record { ch = []; item = none; start = start; end = end }) l
