-- ===== src/Traversal/Ranges.antt =====
-- The entries of a tree within a range, and the subtrees in which there are none.
use iavl.Prelude.{
  ◌≡◌, ◌∙◌, refl, sym, ap, List, [], ◌∷◌, ◌++◌, Bool, true, false, ◌&&◌, Option, none, some,
  if◌then◌else◌, arith, subst, Bool-cases, inl, inr,
}
use mathlib.Core.List.{reverse, reverse-append}
use iavl.Bytes.{Bytes}
use iavl.Bytes.Order.{lt_trans, eq_of_compare}
use iavl.Avl.{Tree, leaf, inner, Entry, to_list, min_key, AllKeys, ◌≺◌, IsOrdered}
use iavl.Avl.Contents.{AllKeys-min}
use iavl.Traversal.{after_start, start_or_after, before_end}

-- The key is in the range.
abbrev pub inside : Option Bytes → Option Bytes → Bool → Bytes → Bool
inside start end inclusive key = start_or_after start key && before_end end inclusive key

before_start :
    (start : Option Bytes) (x k : Bytes)
    → x ≺ k
    → after_start start k ≡ false
    → start_or_after start x ≡ false
unfolding after_start start_or_after
before_start none x k h e = absurd (ground arith)
before_start (some s) x k h e = ground (arith, lt_trans s x k, eq_of_compare s x)

after_end :
    (end : Option Bytes) (inclusive : Bool) (x k : Bytes)
    → x ≺ k
    → before_end end inclusive x ≡ false
    → before_end end inclusive k ≡ false
unfolding before_end
after_end none inclusive x k h e = absurd (ground arith)
after_end (some s) inclusive x k h e = ground (arith, lt_trans x k s, eq_of_compare k s)

-- The elements that pass a test.
abbrev pub select {ℓ} : {A : Type ℓ} → (A → Bool) → List A → List A
select test [] = []
select test (a ∷ l) = if test a then a ∷ select test l else select test l

pub select-append {ℓ} :
    {A : Type ℓ} (test : A → Bool) (l m : List A)
    → select test (l ++ m) ≡ select test l ++ select test m
select-append test [] m = refl
select-append test (a ∷ l) m = elim (Bool-cases (test a)) [
  | inl e ↦ rw e (ap (λ t. a ∷ t) (select-append test l m))
  | inr e ↦ rw e (select-append test l m)
]

-- A list in the direction of the traversal.
abbrev pub in_direction {ℓ} : {A : Type ℓ} → Bool → List A → List A
in_direction true l = l
in_direction false l = reverse l

both_false : (a b : Bool) → b ≡ false → (a && b) ≡ false
both_false a b e = ground arith

module _ (start end : Option Bytes) (inclusive : Bool) where
  -- The entries in the range, in the direction of the traversal.
  abbrev pub range_of : Bool → Tree → List Entry
  range_of ascending (leaf k v) = if inside start end inclusive k then (k, v) ∷ [] else []
  range_of ascending (inner k l r) =
      if ascending
      then range_of ascending l ++ range_of ascending r
      else range_of ascending r ++ range_of ascending l

  pub left_out :
      (ascending : Bool) (t : Tree) (k : Bytes)
      → AllKeys (λ x. x ≺ k) t
      → after_start start k ≡ false
      → range_of ascending t ≡ []
  left_out ascending (leaf x v) k h e = rw (before_start start x k h e) refl
  left_out true (inner j l r) k (h_l, h_r) e =
      rw (left_out true l k h_l e, left_out true r k h_r e) refl
  left_out false (inner j l r) k (h_l, h_r) e =
      rw (left_out false l k h_l e, left_out false r k h_r e) refl

  pub right_out :
      (ascending : Bool) (t : Tree)
      → IsOrdered t
      → before_end end inclusive (min_key t) ≡ false
      → range_of ascending t ≡ []
  right_out ascending (leaf x v) o e =
      rw (both_false (start_or_after start x) (before_end end inclusive x) e) refl
  right_out true (inner k l r) (h, q, o_l, o_r) e =
      let later : before_end end inclusive (min_key r) ≡ false =
        after_end end inclusive (min_key l) (min_key r)
          (subst (λ x. min_key l ≺ x) q (AllKeys-min (λ x. x ≺ k) l h)) e in
      rw (right_out true l o_l e, right_out true r o_r later) refl
  right_out false (inner k l r) (h, q, o_l, o_r) e =
      let later : before_end end inclusive (min_key r) ≡ false =
        after_end end inclusive (min_key l) (min_key r)
          (subst (λ x. min_key l ≺ x) q (AllKeys-min (λ x. x ≺ k) l h)) e in
      rw (right_out false l o_l e, right_out false r o_r later) refl

  -- They are those of the sorted entries.
  pub range_of-select :
      (ascending : Bool) (t : Tree)
      → range_of ascending t
        ≡ in_direction ascending (select (λ e. inside start end inclusive e.0) (to_list t))
  range_of-select true (leaf x v) = refl
  range_of-select false (leaf x v) = elim (Bool-cases (inside start end inclusive x)) [
    | inl e ↦ rw e refl
    | inr e ↦ rw e refl
  ]
  range_of-select true (inner k l r) =
      rw (range_of-select true l, range_of-select true r)
        (sym (select-append (λ e. inside start end inclusive e.0) (to_list l) (to_list r)))
  range_of-select false (inner k l r) =
      let test : Entry → Bool = λ e. inside start end inclusive e.0 in
      rw (range_of-select false l, range_of-select false r)
        (sym (reverse-append (select test (to_list l)) (select test (to_list r)))
          ∙ ap reverse (sym (select-append test (to_list l) (to_list r))))
