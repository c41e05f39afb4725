-- ===== src/Avl/Insert.antt =====
-- `insert` of the reference, with the search order and the sorted list of the leaves.
use iavl.Prelude.{◌≡◌, refl, sym, ◌∙◌, false, Bool-cases, inl, inr, arith, Ordering-cases, is_some}
use iavl.Bytes.{Bytes, compare_bytes, lt_bytes}
use iavl.Bytes.Order.{lt_of_gt, eq_of_compare}
use iavl.Avl.{Tree, leaf, inner, min_key, to_list, AllKeys, ◌≺◌, IsOrdered, insert}
use iavl.Avl.Sorted.{
  find, find-append_above, find-append_below, put, put-append_above, put-append_below,
  Below-to_list, StartsAbove-to_list, below_ge, lt_of_test,
}
use iavl.Avl.Contents.{
  AllKeys-imp, to_list-balance, min_key-balance, AllKeys-balance, balance-IsOrdered,
}

pub AllKeys-insert {ℓ} :
    (P : Bytes → Type ℓ) (t : Tree) (x v : Bytes) → P x → AllKeys P t → AllKeys P (insert t x v).0
unfolding insert
AllKeys-insert P (leaf k w) x v px h = elim (Ordering-cases (compare_bytes x k)) [
  | inl a ↦ rw (a, insert) (px, h)
  | inr (inl a) ↦ rw (a, insert) px
  | inr (inr a) ↦ rw (a, insert) (h, px)
]
AllKeys-insert P (inner k l r) x v px (hl, hr) = elim (Bool-cases (lt_bytes x k)) [
  | inl a ↦
      rw (a, insert)
        (elim (Bool-cases (insert l x v).1) [
          | inl b ↦ rw b (AllKeys-insert P l x v px hl, hr)
          | inr b ↦ rw b (AllKeys-balance P k (insert l x v).0 r (AllKeys-insert P l x v px hl) hr)
        ])
  | inr a ↦
      rw (a, insert)
        (elim (Bool-cases (insert r x v).1) [
          | inl b ↦ rw b (hl, AllKeys-insert P r x v px hr)
          | inr b ↦ rw b (AllKeys-balance P k l (insert r x v).0 hl (AllKeys-insert P r x v px hr))
        ])
]

-- The least key is that of the smaller of the old one and the new key.
min_key-insert_above :
    (t : Tree) (x v : Bytes)
    → IsOrdered t
    → lt_bytes x (min_key t) ≡ false
    → min_key (insert t x v).0 ≡ min_key t
unfolding insert
min_key-insert_above (leaf k w) x v h g = ground (arith, eq_of_compare x k)
min_key-insert_above (inner k l r) x v h g = elim (Bool-cases (lt_bytes x k)) [
  | inl a ↦
      rw (a, insert)
        (elim (Bool-cases (insert l x v).1) [
          | inl b ↦ rw b (min_key-insert_above l x v h.2 g)
          | inr b ↦ rw (b, min_key-balance) (min_key-insert_above l x v h.2 g)
        ])
  | inr a ↦
      rw (a, insert)
        (elim (Bool-cases (insert r x v).1) [ inl b ↦ rw b | inr b ↦ rw (b, min_key-balance) ])
]

pub insert-IsOrdered : (t : Tree) (x v : Bytes) → IsOrdered t → IsOrdered (insert t x v).0
unfolding insert
insert-IsOrdered (leaf k w) x v h = elim (Ordering-cases (compare_bytes x k)) [
  | inl a ↦ rw (a, insert) (a, refl, tt, tt)
  | inr (inl a) ↦ rw (a, insert) tt
  | inr (inr a) ↦ rw (a, insert) (lt_of_gt x k a, refl, tt, tt)
]
insert-IsOrdered (inner k l r) x v (hk, e, hl, hr) = elim (Bool-cases (lt_bytes x k)) [
  | inl a ↦
      let all = AllKeys-insert (λ y. y ≺ k) l x v (lt_of_test x k a) hk in
      let whole = (insert-IsOrdered l x v hl) in
      rw (a, insert)
        (elim (Bool-cases (insert l x v).1) [
          | inl b ↦ rw b (all, e, whole, hr)
          | inr b ↦ rw b (balance-IsOrdered k (insert l x v).0 r (all, e, whole, hr))
        ])
  | inr a ↦
      let least = e ∙ sym (min_key-insert_above r x v hr (rw e at a)) in
      let whole = (insert-IsOrdered r x v hr) in
      rw (a, insert)
        (elim (Bool-cases (insert r x v).1) [
          | inl b ↦ rw b (hk, least, hl, whole)
          | inr b ↦ rw b (balance-IsOrdered k l (insert r x v).0 (hk, least, hl, whole))
        ])
]

pub to_list-insert :
    (t : Tree) (x v : Bytes) → IsOrdered t → to_list (insert t x v).0 ≡ put x v (to_list t)
unfolding insert
to_list-insert (leaf k w) x v h = unfold put in ground arith
to_list-insert (inner k l r) x v (hk, e, hl, hr) = elim (Bool-cases (lt_bytes x k)) [
  | inl a ↦
      let cut =
        put-append_below x v (to_list l) (to_list r)
          (StartsAbove-to_list x r (rw e at (lt_of_test x k a))) in
      rw (cut, a, insert)
        (elim (Bool-cases (insert l x v).1) [
          | inl b ↦ rw (b, to_list-insert l x v hl)
          | inr b ↦ rw (b, to_list-balance, to_list-insert l x v hl)
        ])
  | inr a ↦
      let cut =
        put-append_above x v (to_list l) (to_list r)
          (Below-to_list x l (AllKeys-imp (λ y p. below_ge y k x p a) l hk)) in
      rw (cut, a, insert)
        (elim (Bool-cases (insert r x v).1) [
          | inl b ↦ rw (b, to_list-insert r x v hr)
          | inr b ↦ rw (b, to_list-balance, to_list-insert r x v hr)
        ])
]

-- The flag says whether the key was there.
pub insert_updated :
    (t : Tree) (x v : Bytes) → IsOrdered t → (insert t x v).1 ≡ is_some (find x (to_list t))
unfolding insert
insert_updated (leaf k w) x v h = unfold find in ground arith
insert_updated (inner k l r) x v (hk, e, hl, hr) = elim (Bool-cases (lt_bytes x k)) [
  | inl a ↦
      let cut =
        find-append_below x (to_list l) (to_list r)
          (StartsAbove-to_list x r (rw e at (lt_of_test x k a))) in
      rw (cut, ← insert_updated l x v hl, a, insert)
        (elim (Bool-cases (insert l x v).1) [ inl b ↦ rw b | inr b ↦ rw b ])
  | inr a ↦
      let cut =
        find-append_above x (to_list l) (to_list r)
          (Below-to_list x l (AllKeys-imp (λ y p. below_ge y k x p a) l hk)) in
      rw (cut, ← insert_updated r x v hr, a, insert)
        (elim (Bool-cases (insert r x v).1) [ inl b ↦ rw b | inr b ↦ rw b ])
]
