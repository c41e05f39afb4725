-- ===== src/Avl/Heights.antt =====
-- The AVL condition of reference trees under rebalancing, insertion and removal, and heights.
use iavl.Prelude.{
  ℕ, zero, suc, ◌*◌, ◌^◌, ◌≤◌, ◌<◌, ◌≡◌, refl, true, Bool-cases, inl, inr, ◌⊎◌, arith, ltb, leb,
  if◌then◌else◌, max, get_or,
}
use iavl.Bytes.{Bytes, lt_bytes, equal_bytes}
use iavl.Avl.{
  Tree, leaf, inner, height, size, IsBalanced, rotate_right, rotate_left, leans_left, leans_right,
  balance, insert, Removal, absent, gone, kept, remove, remove_left, remove_right,
}
use native.Mathlib.Nat.{pow-suc}

-- What rebalancing makes of two subtrees whose heights differ by two at most.
pub record Rebalanced (l r t : Tree) : Type 0 where
  pub balanced : IsBalanced t
  pub low : max (height l) (height r) ≤ height t
  pub high : height t ≤ suc (max (height l) (height r))
  pub plain :
      (height t ≡ suc (max (height l) (height r)))
      ⊎ (height l ≡ suc (suc (height r)))
      ⊎ (height r ≡ suc (suc (height l)))

left_heavy :
    (k : Bytes) (l r : Tree)
    → IsBalanced l
    → IsBalanced r
    → height l ≡ suc (suc (height r))
    → Rebalanced l r (
        if leans_left l
        then rotate_right (inner k l r)
        else rotate_right (inner k (rotate_left l) r))
unfolding leans_left rotate_right rotate_left
left_heavy k (leaf j v) r bl br e = absurd (omega arith)
left_heavy k (inner j a (leaf m v)) r bl br e =
    let lean : leb 0 (height a) ≡ true = ground arith in rw lean (ground arith)
left_heavy k (inner j a (inner m c d)) r bl br e =
    elim (Bool-cases (leb (height (inner m c d)) (height a))) [
      | inl b ↦ let le : height (inner m c d) ≤ height a = ground arith in rw b (ground arith)
      | inr b ↦ let lt : height a < height (inner m c d) = ground arith in rw b (ground arith)
    ]

right_heavy :
    (k : Bytes) (l r : Tree)
    → IsBalanced l
    → IsBalanced r
    → height r ≡ suc (suc (height l))
    → Rebalanced l r (
        if leans_right r
        then rotate_left (inner k l r)
        else rotate_left (inner k l (rotate_right r)))
unfolding leans_right rotate_right rotate_left
right_heavy k l (leaf j v) bl br e = absurd (omega arith)
right_heavy k l (inner j (leaf m v) c) bl br e =
    let lean : leb 0 (height c) ≡ true = ground arith in rw lean (ground arith)
right_heavy k l (inner j (inner m a b) c) bl br e =
    elim (Bool-cases (leb (height (inner m a b)) (height c))) [
      | inl p ↦ let le : height (inner m a b) ≤ height c = ground arith in rw p (ground arith)
      | inr p ↦ let lt : height c < height (inner m a b) = ground arith in rw p (ground arith)
    ]

pub balance_lem :
    (k : Bytes) (l r : Tree)
    → IsBalanced l
    → IsBalanced r
    → height l ≤ suc (suc (height r))
    → height r ≤ suc (suc (height l))
    → Rebalanced l r (balance k l r)
unfolding balance
balance_lem k l r bl br hl hr = elim (Bool-cases (ltb (suc (height r)) (height l))) [
  | inl a ↦ rw a (left_heavy k l r bl br (ground arith))
  | inr a ↦
      let le : height l ≤ suc (height r) = ground arith in
      rw a (elim (Bool-cases (ltb (suc (height l)) (height r))) [
        | inl c ↦ rw c (right_heavy k l r bl br (ground arith))
        | inr c ↦ let ge : height r ≤ suc (height l) = ground arith in rw c (ground arith)
      ])
]

-- A tree and what an insertion makes of it.
pub record Grown (t t' : Tree) : Type 0 where
  pub balanced : IsBalanced t'
  pub low : height t ≤ height t'
  pub high : height t' ≤ suc (height t)

Grown-of_same : (t t' : Tree) → IsBalanced t' → height t' ≡ height t → Grown t t'
Grown-of_same t t' b e = record { balanced = b; low = omega arith; high = omega arith }

Grown-left :
    (k : Bytes) (l r l' : Tree)
    → IsBalanced (inner k l r)
    → Grown l l'
    → Grown (inner k l r) (balance k l' r)
Grown-left k l r l' b g =
    ground (arith, balance_lem k l' r g.balanced b.3 (ground arith) (ground arith))

Grown-right :
    (k : Bytes) (l r r' : Tree)
    → IsBalanced (inner k l r)
    → Grown r r'
    → Grown (inner k l r) (balance k l r')
Grown-right k l r r' b g =
    ground (arith, balance_lem k l r' b.2 g.balanced (ground arith) (ground arith))

-- An update leaves the height alone.
pub height-insert_updated :
    (t : Tree) (x v : Bytes) → (insert t x v).1 ≡ true → height (insert t x v).0 ≡ height t
unfolding insert
height-insert_updated (leaf k w) x v e = ground arith
height-insert_updated (inner k l r) x v e = elim (Bool-cases (lt_bytes x k)) [
  | inl a ↦ elim (Bool-cases (insert l x v).1) [
    | inl b ↦ rw (a, insert) (rw b (ground (arith, height-insert_updated l x v b)))
    | inr b ↦ cc (rw (a, insert, b) at e)
  ]
  | inr a ↦ elim (Bool-cases (insert r x v).1) [
    | inl b ↦ rw (a, insert) (rw b (ground (arith, height-insert_updated r x v b)))
    | inr b ↦ cc (rw (a, insert, b) at e)
  ]
]

pub insert-Grown : (t : Tree) (x v : Bytes) → IsBalanced t → Grown t (insert t x v).0
unfolding insert
insert-Grown (leaf k w) x v h = ground arith
insert-Grown (inner k l r) x v h = elim (Bool-cases (lt_bytes x k)) [
  | inl a ↦
      let g = insert-Grown l x v h.2 in
      rw (a, insert)
        (elim (Bool-cases (insert l x v).1) [
          | inl b ↦ rw b (ground (arith, height-insert_updated l x v b))
          | inr b ↦ rw b (Grown-left k l r (insert l x v).0 h g)
        ])
  | inr a ↦
      let g = insert-Grown r x v h.3 in
      rw (a, insert)
        (elim (Bool-cases (insert r x v).1) [
          | inl b ↦ rw b (ground (arith, height-insert_updated r x v b))
          | inr b ↦ rw b (Grown-right k l r (insert r x v).0 h g)
        ])
]

-- A tree and what a removal makes of it.
pub record Shrunk (t t' : Tree) : Type 0 where
  pub balanced : IsBalanced t'
  pub low : height t ≤ suc (height t')
  pub high : height t' ≤ height t

abbrev pub ShrunkTo : Tree → Removal → Type 0
ShrunkTo t absent = Unit
ShrunkTo t (gone v) = height t ≡ 0
ShrunkTo t (kept t' new_key v) = Shrunk t t'

shrunk_left :
    (k : Bytes) (l r : Tree) (res : Removal)
    → IsBalanced (inner k l r)
    → ShrunkTo l res
    → ShrunkTo (inner k l r) (remove_left k r res)
unfolding remove_left
shrunk_left k l r absent b s = tt
shrunk_left k l r (gone v) b s = ground arith
shrunk_left k l r (kept l' new_key v) b s =
    ground (arith, balance_lem k l' r s.balanced b.3 (ground arith) (ground arith))

shrunk_right :
    (k : Bytes) (l r : Tree) (res : Removal)
    → IsBalanced (inner k l r)
    → ShrunkTo r res
    → ShrunkTo (inner k l r) (remove_right k l res)
unfolding remove_right
shrunk_right k l r absent b s = tt
shrunk_right k l r (gone v) b s = ground arith
shrunk_right k l r (kept r' new_key v) b s =
    ground (arith, balance_lem (get_or new_key k) l r' b.2 s.balanced (ground arith) (ground arith))

pub remove-Shrunk : (t : Tree) (x : Bytes) → IsBalanced t → ShrunkTo t (remove t x)
unfolding remove
remove-Shrunk (leaf k w) x h = elim (Bool-cases (equal_bytes x k)) [
  | inl a ↦ rw a refl
  | inr a ↦ rw a tt
]
remove-Shrunk (inner k l r) x h = elim (Bool-cases (lt_bytes x k)) [
  | inl a ↦ rw (a, remove) (shrunk_left k l r (remove l x) h (remove-Shrunk l x h.2))
  | inr a ↦ rw (a, remove) (shrunk_right k l r (remove r x) h (remove-Shrunk r x h.3))
]

-- A balanced tree is shallow: its height is below twice the logarithm of its size.
pow-le-size : (n : ℕ) (t : Tree) → IsBalanced t → 2 * n ≤ height t → 2 ^ n ≤ size t
pow-le-size zero (leaf k v) b h = omega arith
pow-le-size zero (inner k l r) b h = omega (arith, pow-le-size zero l b.2 (omega arith))
pow-le-size (suc n) (leaf k v) b h = absurd (omega arith)
pow-le-size (suc n) (inner k l r) b h =
    omega (arith, pow-suc 2 n, pow-le-size n l b.2 (omega arith), pow-le-size n r b.3 (omega arith))

pub height-lt : (n : ℕ) (t : Tree) → IsBalanced t → size t < 2 ^ n → height t < 2 * n
height-lt n t b h = elim (cases (height t) (2 * n)) [
  | inl e ↦ e
  | inr e ↦ absurd (omega (arith, pow-le-size n t b e))
]
  where
    cases : (a b : ℕ) → (a < b) ⊎ (b ≤ a)
    cases a b = omega arith
