-- ===== src/Directions.antt =====
-- Lists of entries in ascending or in descending order of their keys, as the iterators give them.
use iavl.Prelude.{
  append-nil, ◌⊎◌, ◌≡◌, refl, sym, ap, subst, ◌∙◌, List, [], ◌∷◌, ◌++◌, All, All-imp, All-append,
  Bool, true, false, ◌&&◌, Option, none, some, if◌then◌else◌, arith, Bool-cases, inl, inr,
  Ordering-cases,
}
use mathlib.Core.List.{reverse, reverse-cons}
use iavl.Bytes.{Bytes, compare_bytes, equal_bytes}
use iavl.Bytes.Map.{load}
use iavl.Bytes.Order.{eq_of_compare, compare_refl, lt_trans, lt_of_gt}
use iavl.Avl.{Entry, ◌≺◌}
use iavl.Avl.Sorted.{find}
use iavl.Avl.Entries.{IsSorted}
use iavl.Traversal.Ranges.{select, select-append, in_direction}

-- the first key comes before the second one
abbrev pub Precedes : Bool → Bytes → Bytes → Type 0
Precedes true a b = a ≺ b
Precedes false a b = b ≺ a

abbrev pub InOrder : Bool → List Entry → Type 0
InOrder ascending [] = Unit
InOrder ascending (e ∷ l) = All (λ x. Precedes ascending e.0 x.0) l × InOrder ascending l

pub Precedes-trans :
    (ascending : Bool) (a b c : Bytes)
    → Precedes ascending a b
    → Precedes ascending b c
    → Precedes ascending a c
Precedes-trans true a b c h k = lt_trans a b c h k
Precedes-trans false a b c h k = lt_trans c b a k h

pub equal_of_Precedes :
    (ascending : Bool) (a b : Bytes) → Precedes ascending a b → equal_bytes b a ≡ false
equal_of_Precedes true a b h = ground (arith, eq_of_compare b a, compare_refl a)
equal_of_Precedes false a b h = ground (arith, eq_of_compare b a, compare_refl a)

InOrder-append_last :
    (l : List Entry) (e : Entry)
    → InOrder false l
    → All (λ x. e.0 ≺ x.0) l
    → InOrder false (l ++ e ∷ [])
InOrder-append_last [] e h a = (tt, tt)
InOrder-append_last (x ∷ l) e (hx, h) (p, a) =
    (All-append (λ y. y.0 ≺ x.0) l (e ∷ []) hx (p, tt), InOrder-append_last l e h a)

pub All-reverse {ℓ κ} : {A : Type ℓ} (P : A → Type κ) (l : List A) → All P l → All P (reverse l)
All-reverse P [] h = h
All-reverse P (x ∷ l) (p, h) =
    subst (All P) (sym (reverse-cons x l))
      (All-append P (reverse l) (x ∷ []) (All-reverse P l h) (p, tt))

reverse-InOrder : (l : List Entry) → IsSorted l → InOrder false (reverse l)
reverse-InOrder [] h = tt
reverse-InOrder (x ∷ l) (a, h) =
    subst (InOrder false) (sym (reverse-cons x l))
      (InOrder-append_last (reverse l) x (reverse-InOrder l h) (All-reverse (λ y. x.0 ≺ y.0) l a))

pub IsSorted-InOrder : (l : List Entry) → IsSorted l → InOrder true l
IsSorted-InOrder [] h = tt
IsSorted-InOrder (x ∷ l) (a, h) = (a, IsSorted-InOrder l h)

pub in_direction-InOrder :
    (ascending : Bool) (l : List Entry) → IsSorted l → InOrder ascending (in_direction ascending l)
in_direction-InOrder true l h = IsSorted-InOrder l h
in_direction-InOrder false l h = reverse-InOrder l h

pub select-All {κ} :
    (P : Entry → Type κ) (test : Entry → Bool) (l : List Entry) → All P l → All P (select test l)
select-All P test [] h = tt
select-All P test (x ∷ l) (p, h) = elim (Bool-cases (test x)) [
  | inl e ↦ rw e (p, select-All P test l h)
  | inr e ↦ rw e (select-All P test l h)
]

pub select-InOrder :
    (ascending : Bool) (test : Entry → Bool) (l : List Entry)
    → InOrder ascending l
    → InOrder ascending (select test l)
select-InOrder ascending test [] h = tt
select-InOrder ascending test (x ∷ l) (a, h) = elim (Bool-cases (test x)) [
  | inl e ↦ rw e (select-All _ test l a, select-InOrder ascending test l h)
  | inr e ↦ rw e (select-InOrder ascending test l h)
]

pub select-in_direction :
    (ascending : Bool) (test : Entry → Bool) (l : List Entry)
    → select test (in_direction ascending l) ≡ in_direction ascending (select test l)
select-in_direction true test l = refl
select-in_direction false test l = select-reverse l
  where
    select-reverse : (l : List Entry) → select test (reverse l) ≡ reverse (select test l)
    select-reverse [] = refl
    select-reverse (x ∷ l) =
        ap (select test) (reverse-cons x l)
        ∙ select-append test (reverse l) (x ∷ [])
        ∙ elim (Bool-cases (test x)) [
          | inl e ↦
              rw e (ap (λ m. m ++ x ∷ []) (select-reverse l) ∙ sym (reverse-cons x (select test l)))
          | inr e ↦ rw e (append-nil (select test (reverse l)) ∙ select-reverse l)
        ]

pub select-select :
    (p q : Entry → Bool) (l : List Entry) → select p (select q l) ≡ select (λ e. q e && p e) l
select-select p q [] = refl
select-select p q (x ∷ l) = elim (Bool-cases (q x)) [
  | inl e ↦ rw e (elim (Bool-cases (p x)) [
    | inl d ↦ rw d (ap (λ m. x ∷ m) (select-select p q l))
    | inr d ↦ rw d (select-select p q l)
  ])
  | inr e ↦ rw e (select-select p q l)
]

pub select-cong :
    (p q : Entry → Bool) (l : List Entry) → All (λ e. p e ≡ q e) l → select p l ≡ select q l
select-cong p q [] h = refl
select-cong p q (x ∷ l) (h, hs) = rw (h, select-cong p q l hs) refl

pub load-later :
    (ascending : Bool) (k : Bytes) (l : List Entry)
    → All (λ x. Precedes ascending k x.0) l
    → load k l ≡ none
unfolding load
load-later ascending k [] h = refl
load-later ascending k ((j, v) ∷ l) (p, h) = rw (differs ascending p) (load-later ascending k l h)
  where
    differs : (ascending : Bool) → Precedes ascending k j → equal_bytes k j ≡ false
    differs true p = ground (arith, eq_of_compare k j, compare_refl k)
    differs false p = ground (arith, eq_of_compare k j, compare_refl k)

-- Two keys come in one of the two orders, or are equal.
either_order :
    (ascending : Bool) (a b : Bytes) → Precedes ascending a b ⊎ Precedes ascending b a ⊎ (a ≡ b)
either_order true a b = elim (Ordering-cases (compare_bytes a b)) [
  | inl l ↦ inl l
  | inr (inl e) ↦ inr (inr (eq_of_compare a b e))
  | inr (inr g) ↦ inr (inl (lt_of_gt a b g))
]
either_order false a b = elim (Ordering-cases (compare_bytes a b)) [
  | inl l ↦ inr (inl l)
  | inr (inl e) ↦ inr (inr (eq_of_compare a b e))
  | inr (inr g) ↦ inl (lt_of_gt a b g)
]

load-first : (e : Entry) (l : List Entry) → load e.0 (e ∷ l) ≡ some e.1
unfolding load
load-first (k, v) l = ground (arith, compare_refl k)

pub load-rest :
    (k : Bytes) (e : Entry) (l : List Entry) → equal_bytes k e.0 ≡ false → load k (e ∷ l) ≡ load k l
unfolding load
load-rest k (j, v) l h = rw h refl

absent_first :
    (ascending : Bool) (a : Bytes) (e : Entry) (l : List Entry)
    → Precedes ascending a e.0
    → InOrder ascending (e ∷ l)
    → load a (e ∷ l) ≡ none
absent_first ascending a e l p (h, q) =
    load-later ascending a (e ∷ l) (p, All-imp (λ x r. Precedes-trans ascending a e.0 x.0 p r) l h)

pub load-nil : (k : Bytes) → load {V = Bytes} k [] ≡ none
unfolding load
load-nil k = refl

some-none : (v : Bytes) (o : Option Bytes) → o ≡ some v → o ≡ none → ⊥
some-none v o h k = cc

-- The rest of a list in order does not have the key in front.
rest_without :
    (ascending : Bool) (e : Entry) (l : List Entry) (k : Bytes)
    → InOrder ascending (e ∷ l)
    → equal_bytes k e.0 ≡ true
    → load k l ≡ none
rest_without ascending e l k (h, q) same =
    load-later ascending k l (subst (λ a. All (λ x. Precedes ascending a x.0) l) (sym at) h)
  where
    at : k ≡ e.0
    at = ground (arith, eq_of_compare k e.0)

-- A list in order is determined by what is at each key.
pub InOrder-ext :
    (ascending : Bool) (l m : List Entry)
    → InOrder ascending l
    → InOrder ascending m
    → ((k : Bytes) → load k l ≡ load k m)
    → l ≡ m
InOrder-ext ascending [] [] h q e = refl
InOrder-ext ascending [] (y ∷ m) h q e =
    absurd (some-none y.1 (load y.0 (y ∷ m)) (load-first y m) (sym (e y.0) ∙ load-nil y.0))
InOrder-ext ascending (x ∷ l) [] h q e =
    absurd (some-none x.1 (load x.0 (x ∷ l)) (load-first x l) (e x.0 ∙ load-nil x.0))
InOrder-ext ascending (x ∷ l) (y ∷ m) h q e = elim (either_order ascending x.0 y.0) [
  | inl p ↦ absurd (
      some-none x.1 (load x.0 (x ∷ l)) (load-first x l)
        (e x.0 ∙ absent_first ascending x.0 y m p q))
  | inr (inl p) ↦ absurd (
      some-none y.1 (load y.0 (y ∷ m)) (load-first y m)
        (sym (e y.0) ∙ absent_first ascending y.0 x l p h))
  | inr (inr p) ↦
      let at : some x.1 ≡ some y.1 =
        sym (load-first x l) ∙ e x.0 ∙ ap (λ k. load k (y ∷ m)) p ∙ load-first y m in
      let first : x ≡ y = cc in
      ap (λ z. z ∷ l) first ∙ ap (λ z. y ∷ z) (InOrder-ext ascending l m h.1 q.1 (λ k. same p k))
]
  where
    same : x.0 ≡ y.0 → (k : Bytes) → load k l ≡ load k m
    same p k = elim (Bool-cases (equal_bytes k x.0)) [
      | inl c ↦
          rest_without ascending x l k h c
          ∙ sym (rest_without ascending y m k q (subst (λ z. equal_bytes k z ≡ true) p c))
      | inr c ↦
          sym (load-rest k x l c) ∙ e k ∙ load-rest k y m (subst (λ z. equal_bytes k z ≡ false) p c)
    ]

or_last : Option Bytes → Option Bytes → Option Bytes
or_last (some v) d = some v
or_last none d = d

load-append_last :
    (k : Bytes) (l : List Entry) (e : Entry)
    → load k (l ++ e ∷ []) ≡ or_last (load k l) (load k (e ∷ []))
unfolding load or_last
load-append_last k [] e = refl
load-append_last k ((i, w) ∷ l) (j, v) = ground (arith, load-append_last k l (j, v))

or_last-none : (o : Option Bytes) → or_last o none ≡ o
unfolding or_last
or_last-none none = refl
or_last-none (some v) = refl

or_last-first : (o : Option Bytes) → or_last none o ≡ o
unfolding or_last
or_last-first o = refl

load-same :
    (k : Bytes) (e : Entry) (l : List Entry) → equal_bytes k e.0 ≡ true → load k (e ∷ l) ≡ some e.1
unfolding load
load-same k (j, v) l h = rw h refl

load-reverse : (k : Bytes) (l : List Entry) → IsSorted l → load k (reverse l) ≡ load k l
load-reverse k [] h = refl
load-reverse k (x ∷ l) (a, h) =
    ap (load k) (reverse-cons x l)
    ∙ load-append_last k (reverse l) x
    ∙ ap (λ o. or_last o (load k (x ∷ []))) (load-reverse k l h)
    ∙ last_first (Bool-cases (equal_bytes k x.0))
  where
    both : equal_bytes k x.0 ≡ true → load k (x ∷ []) ≡ load k (x ∷ l)
    both c = load-same k x [] c ∙ sym (load-same k x l c)

    last_first :
        (equal_bytes k x.0 ≡ true) ⊎ (equal_bytes k x.0 ≡ false)
        → or_last (load k l) (load k (x ∷ [])) ≡ load k (x ∷ l)
    last_first (inl c) =
        ap (λ o. or_last o (load k (x ∷ []))) (rest_without true x l k (a, IsSorted-InOrder l h) c)
        ∙ or_last-first (load k (x ∷ []))
        ∙ both c
    last_first (inr c) =
        ap (or_last (load k l)) (load-rest k x [] c ∙ load-nil k)
        ∙ or_last-none (load k l)
        ∙ sym (load-rest k x l c)

pub load-find : (k : Bytes) (l : List Entry) → IsSorted l → load k l ≡ find k l
unfolding load find
load-find k [] h = refl
load-find k ((j, v) ∷ l) (a, h) = elim (Ordering-cases (compare_bytes k j)) [
  | inl c ↦
      let gone = load-later true k l (All-imp (λ x r. lt_trans k j x.0 c r) l a) in ground arith
  | inr (inl c) ↦ ground arith
  | inr (inr g) ↦ ground (arith, load-find k l h)
]

pub load-in_direction :
    (ascending : Bool) (k : Bytes) (l : List Entry)
    → IsSorted l
    → load k (in_direction ascending l) ≡ find k l
load-in_direction true k l h = load-find k l h
load-in_direction false k l h = load-reverse k l h ∙ load-find k l h

pub load-select :
    (k : Bytes) (test : Bytes → Bool) (l : List Entry)
    → load k (select (λ e. test e.0) l) ≡ (if test k then load k l else none)
unfolding load
load-select k test [] = ground arith
load-select k test ((j, v) ∷ l) = elim (Bool-cases (test j)) [
  | inl c ↦ rw c (ground (arith, load-select k test l, eq_of_compare k j))
  | inr c ↦ rw c (ground (arith, load-select k test l, eq_of_compare k j))
]
