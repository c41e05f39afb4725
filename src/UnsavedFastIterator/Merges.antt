-- ===== src/UnsavedFastIterator/Merges.antt =====
-- unsaved_fast_iterator.go: what a merge of saved and unsaved entries must be, and how it grows.
use iavl.Prelude.{
  ◌≡◌, refl, sym, ap, ◌∙◌, List, [], ◌∷◌, All, All-imp, Bool, true, false, Option, none, some,
  arith, Bool-cases, inl, inr,
}
use iavl.Bytes.{Bytes, equal_bytes}
use iavl.Bytes.Map.{load}
use iavl.Bytes.Order.{eq_of_compare, compare_refl, lt_of_gt}
use iavl.Avl.{Entry}
use iavl.Directions.{Precedes, InOrder, Precedes-trans, load-later, load-rest}
use iavl.Cache.Recency.{eq_of_equal}
use iavl.UnsavedFastIterator.{is_unsaved_next}

-- what a merge finds of an unsaved value, a removal and a saved value
abbrev pub merged : Option Bytes → Bool → Option Bytes → Option Bytes
merged (some v) removed saved = some v
merged none true saved = none
merged none false saved = saved

merged-removed :
    (u saved saved' : Option Bytes) (b : Bool) → b ≡ true → merged u b saved ≡ merged u b saved'
merged-removed (some v) saved saved' b e = refl
merged-removed none saved saved' true e = refl
merged-removed none saved saved' false e = absurd (ground arith)

load-same :
    (k : Bytes) (e : Entry) (l : List Entry) → equal_bytes k e.0 ≡ true → load k (e ∷ l) ≡ some e.1
unfolding load
load-same k (j, v) l h = rw h refl

module _ (ascending : Bool) (removed : Bytes → Bool) where
  abbrev Before : Bytes → List Entry → Type 0
  Before a l = All (λ x. Precedes ascending a x.0) l

  pub record Merges (d u out : List Entry) : Type 0 where
    pub in_order : InOrder ascending out
    pub later : (a : Bytes) → Before a d → Before a u → Before a out
    pub at : (k : Bytes) → load k out ≡ merged (load k u) (removed k) (load k d)

  pub Merges-done : Merges [] [] []
  unfolding load
  Merges-done = record { in_order = tt; later = λ a h q. tt; at = λ k. nothing (removed k) }
    where
      nothing : (b : Bool) → none ≡ merged none b none
      nothing true = refl
      nothing false = refl

  -- a saved entry that is removed
  pub Merges-skip :
      (e : Entry) (d u out : List Entry)
      → removed e.0 ≡ true
      → Merges d u out
      → Merges (e ∷ d) u out
  Merges-skip e d u out r m = record {
    in_order = m.in_order;
    later = λ a h q. m.later a h.1 q;
    at = λ k. m.at k ∙ elim (Bool-cases (equal_bytes k e.0)) [
      | inl c ↦
          merged-removed (load k u) (load k d) (load k (e ∷ d)) (removed k)
            (ap removed (eq_of_equal k e.0 c) ∙ r)
      | inr c ↦ ap (merged (load k u) (removed k)) (sym (load-rest k e d c))
    ];
  }

  -- a saved entry that comes first
  pub Merges-disk :
      (e : Entry) (d u out : List Entry)
      → removed e.0 ≡ false
      → Before e.0 d
      → Before e.0 u
      → Merges d u out
      → Merges (e ∷ d) u (e ∷ out)
  Merges-disk e d u out r hd hu m = record {
    in_order = (m.later e.0 hd hu, m.in_order);
    later = λ a h q. (h.0, m.later a h.1 q);
    at = λ k. elim (Bool-cases (equal_bytes k e.0)) [
      | inl c ↦
          let same : k ≡ e.0 = eq_of_equal k e.0 c in
          load-same k e out c
          ∙ rw
              (
                load-same k e d c,
                ap (λ j. load j u) same ∙ load-later ascending e.0 u hu,
                ap removed same ∙ r,
              )
              refl
      | inr c ↦
          load-rest k e out c
          ∙ m.at k
          ∙ ap (merged (load k u) (removed k)) (sym (load-rest k e d c))
    ];
  }

  -- an unsaved entry that comes first
  pub Merges-unsaved :
      (e : Entry) (d u out : List Entry)
      → Before e.0 d
      → Before e.0 u
      → Merges d u out
      → Merges d (e ∷ u) (e ∷ out)
  Merges-unsaved e d u out hd hu m = record {
    in_order = (m.later e.0 hd hu, m.in_order);
    later = λ a h q. (q.0, m.later a h q.1);
    at = λ k. elim (Bool-cases (equal_bytes k e.0)) [
      | inl c ↦ load-same k e out c ∙ rw (load-same k e u c) refl
      | inr c ↦
          load-rest k e out c
          ∙ m.at k
          ∙ ap (λ o. merged o (removed k) (load k d)) (sym (load-rest k e u c))
    ];
  }

  -- an unsaved entry that comes first, over a saved one of the same key
  pub Merges-over :
      (x e : Entry) (d u out : List Entry)
      → x.0 ≡ e.0
      → Before e.0 d
      → Before e.0 u
      → Merges d u out
      → Merges (x ∷ d) (e ∷ u) (e ∷ out)
  Merges-over x e d u out same hd hu m = record {
    in_order = (m.later e.0 hd hu, m.in_order);
    later = λ a h q. (q.0, m.later a h.1 q.1);
    at = λ k. elim (Bool-cases (equal_bytes k e.0)) [
      | inl c ↦ load-same k e out c ∙ rw (load-same k e u c) refl
      | inr c ↦
          load-rest k e out c
          ∙ m.at k
          ∙ ap (λ o. merged o (removed k) (load k d)) (sym (load-rest k e u c))
          ∙ ap (merged (load k (e ∷ u)) (removed k))
              (sym (load-rest k x d (ap (equal_bytes k) same ∙ c)))
    ];
  }

  -- what comes before the head of a list in order comes before all of it
  pub Before-all :
      (a : Bytes) (e : Entry) (l : List Entry)
      → Precedes ascending a e.0
      → InOrder ascending (e ∷ l)
      → Before a (e ∷ l)
  Before-all a e l p (h, q) = (p, All-imp (λ x r. Precedes-trans ascending a e.0 x.0 p r) l h)

-- The comparison of `Next` tells which key comes first.
pub disk_first :
    (ascending : Bool) (disk key : Bytes)
    → is_unsaved_next ascending disk key ≡ false
    → Precedes ascending disk key
unfolding is_unsaved_next
disk_first true disk key h = ground arith
disk_first false disk key h = ground arith

pub unsaved_first :
    (ascending : Bool) (disk key : Bytes)
    → is_unsaved_next ascending disk key ≡ true
    → equal_bytes disk key ≡ false
    → Precedes ascending key disk
unfolding is_unsaved_next
unsaved_first true disk key h e = ground (arith, lt_of_gt disk key)
unsaved_first false disk key h e =
    ground (arith, lt_of_gt key disk, eq_of_compare key disk, compare_refl key)
