-- ===== src/Avl/Contents.antt =====
-- The leaves, the order and the separators of reference trees under rebalancing.
use iavl.Prelude.{◌≡◌, refl, sym, ◌∙◌, ◌++◌, Bool-cases, inl, inr, arith, append_assoc, suc, ltb}
use iavl.Bytes.{Bytes}
use iavl.Bytes.Order.{lt_trans}
use iavl.Avl.{
  Tree, leaf, inner, height, min_key, to_list, AllKeys, ◌≺◌, IsOrdered, rotate_right, rotate_left,
  leans_left, leans_right, balance,
}

pub to_list-rotate_right : (t : Tree) → to_list (rotate_right t) ≡ to_list t
unfolding rotate_right
to_list-rotate_right (leaf k v) = refl
to_list-rotate_right (inner k (leaf j v) c) = refl
to_list-rotate_right (inner k (inner j a b) c) =
    sym (append_assoc (to_list a) (to_list b) (to_list c))

pub to_list-rotate_left : (t : Tree) → to_list (rotate_left t) ≡ to_list t
unfolding rotate_left
to_list-rotate_left (leaf k v) = refl
to_list-rotate_left (inner k a (leaf j v)) = refl
to_list-rotate_left (inner k a (inner j b c)) = append_assoc (to_list a) (to_list b) (to_list c)

pub AllKeys-imp {ℓ κ} :
    {P : Bytes → Type ℓ} {Q : Bytes → Type κ}
    → ((x : Bytes) → P x → Q x)
    → (t : Tree) → AllKeys P t
    → AllKeys Q t
AllKeys-imp f (leaf k v) h = f k h
AllKeys-imp f (inner k l r) (hl, hr) = (AllKeys-imp f l hl, AllKeys-imp f r hr)

pub AllKeys-min {ℓ} : (P : Bytes → Type ℓ) (t : Tree) → AllKeys P t → P (min_key t)
AllKeys-min P (leaf k v) h = h
AllKeys-min P (inner k l r) (hl, hr) = AllKeys-min P l hl

rotate_right-IsOrdered : (t : Tree) → IsOrdered t → IsOrdered (rotate_right t)
unfolding rotate_right
rotate_right-IsOrdered (leaf k v) h = h
rotate_right-IsOrdered (inner k (leaf j v) c) h = h
rotate_right-IsOrdered (inner k (inner j a b) c) ((ha, hb), e, (ga, d, oa, ob), oc) =
    (ga, d, oa, (hb, e, ob, oc))

rotate_left-IsOrdered : (t : Tree) → IsOrdered t → IsOrdered (rotate_left t)
unfolding rotate_left
rotate_left-IsOrdered (leaf k v) h = h
rotate_left-IsOrdered (inner k a (leaf j v)) h = h
rotate_left-IsOrdered (inner k a (inner j b c)) (ha, e, oa, (hb, d, ob, oc)) =
    let below = rw (← e) at (AllKeys-min (λ x. x ≺ j) b hb) in
    ((AllKeys-imp (λ x p. lt_trans x k j p below) a ha, hb), d, (ha, e, oa, ob), oc)

min_key-rotate_right : (t : Tree) → min_key (rotate_right t) ≡ min_key t
unfolding rotate_right
min_key-rotate_right (leaf k v) = refl
min_key-rotate_right (inner k (leaf j v) c) = refl
min_key-rotate_right (inner k (inner j a b) c) = refl

min_key-rotate_left : (t : Tree) → min_key (rotate_left t) ≡ min_key t
unfolding rotate_left
min_key-rotate_left (leaf k v) = refl
min_key-rotate_left (inner k a (leaf j v)) = refl
min_key-rotate_left (inner k a (inner j b c)) = refl

AllKeys-rotate_left {ℓ} : (P : Bytes → Type ℓ) (t : Tree) → AllKeys P t → AllKeys P (rotate_left t)
unfolding rotate_left
AllKeys-rotate_left P (leaf k v) h = h
AllKeys-rotate_left P (inner k a (leaf j v)) h = h
AllKeys-rotate_left P (inner k a (inner j b c)) (ha, (hb, hc)) = ((ha, hb), hc)

AllKeys-rotate_right {ℓ} :
    (P : Bytes → Type ℓ) (t : Tree) → AllKeys P t → AllKeys P (rotate_right t)
unfolding rotate_right
AllKeys-rotate_right P (leaf k v) h = h
AllKeys-rotate_right P (inner k (leaf j v) c) h = h
AllKeys-rotate_right P (inner k (inner j a b) c) ((ha, hb), hc) = (ha, (hb, hc))

pub to_list-balance : (k : Bytes) (l r : Tree) → to_list (balance k l r) ≡ to_list l ++ to_list r
unfolding balance
to_list-balance k l r = ground (
  arith,
  to_list-rotate_right (inner k l r),
  to_list-rotate_right (inner k (rotate_left l) r),
  to_list-rotate_left l,
  to_list-rotate_left (inner k l r),
  to_list-rotate_left (inner k l (rotate_right r)),
  to_list-rotate_right r,
)

pub min_key-balance : (k : Bytes) (l r : Tree) → min_key (balance k l r) ≡ min_key l
unfolding balance
min_key-balance k l r = ground (
  arith,
  min_key-rotate_right (inner k l r),
  min_key-rotate_right (inner k (rotate_left l) r),
  min_key-rotate_left l,
  min_key-rotate_left (inner k l r),
  min_key-rotate_left (inner k l (rotate_right r)),
)

pub AllKeys-balance {ℓ} :
    (P : Bytes → Type ℓ) (k : Bytes) (l r : Tree)
    → AllKeys P l
    → AllKeys P r
    → AllKeys P (balance k l r)
unfolding balance
AllKeys-balance P k l r hl hr = elim (Bool-cases (ltb (suc (height r)) (height l))) [
  | inl a ↦ rw a (elim (Bool-cases (leans_left l)) [
    | inl b ↦ rw b (AllKeys-rotate_right P (inner k l r) (hl, hr))
    | inr b ↦
        rw b (AllKeys-rotate_right P (inner k (rotate_left l) r) (AllKeys-rotate_left P l hl, hr))
  ])
  | inr a ↦ rw a (elim (Bool-cases (ltb (suc (height l)) (height r))) [
    | inl c ↦ rw c (elim (Bool-cases (leans_right r)) [
      | inl b ↦ rw b (AllKeys-rotate_left P (inner k l r) (hl, hr))
      | inr b ↦
          rw b
            (AllKeys-rotate_left P (inner k l (rotate_right r)) (hl, AllKeys-rotate_right P r hr))
    ])
    | inr c ↦ rw c (hl, hr)
  ])
]

pub balance-IsOrdered :
    (k : Bytes) (l r : Tree) → IsOrdered (inner k l r) → IsOrdered (balance k l r)
unfolding balance
balance-IsOrdered k l r h = elim (Bool-cases (ltb (suc (height r)) (height l))) [
  | inl a ↦ rw a (elim (Bool-cases (leans_left l)) [
    | inl b ↦ rw b (rotate_right-IsOrdered (inner k l r) h)
    | inr b ↦ rw b (
        rotate_right-IsOrdered (inner k (rotate_left l) r)
          (AllKeys-rotate_left (λ x. x ≺ k) l h.0, h.1, rotate_left-IsOrdered l h.2, h.3))
  ])
  | inr a ↦ rw a (elim (Bool-cases (ltb (suc (height l)) (height r))) [
    | inl c ↦ rw c (elim (Bool-cases (leans_right r)) [
      | inl b ↦ rw b (rotate_left-IsOrdered (inner k l r) h)
      | inr b ↦ rw b (
          rotate_left-IsOrdered (inner k l (rotate_right r))
            (h.0, h.1 ∙ sym (min_key-rotate_right r), h.2, rotate_right-IsOrdered r h.3))
    ])
    | inr c ↦ rw c h
  ])
]
