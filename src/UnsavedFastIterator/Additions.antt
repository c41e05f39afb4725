-- ===== src/UnsavedFastIterator/Additions.antt =====
-- unsaved_fast_iterator.go: the fast nodes of the additions whose keys are in the range.
use iavl.Prelude.{
  ◌≡◌, refl, sym, ap, ◌∙◌, List, [], ◌∷◌, All, All-imp, Bool, true, false, not, ◌&&◌, Option, none,
  some, if◌then◌else◌, arith, Bool-cases, inl, inr,
}
use iavl.Bytes.{Bytes, equal_bytes}
use iavl.Bytes.Map.{load}
use iavl.Bytes.Order.{eq_of_compare, compare_refl, lt_of_gt, gt_of_lt}
use iavl.FastNode.{FastNode}
use iavl.Traversal.{start_or_after, before_end}
use iavl.Traversal.Ranges.{inside}
use iavl.Cache.Recency.{eq_of_equal, equal_refl}
use iavl.UnsavedFastIterator.{is_before, is_from, keys_in_range}
use iavl.UnsavedFastIterator.Steps.{entries, node_keys}

-- A map has each key once, and each fast node under its own key.
abbrev pub IsKeyed : List (Bytes × FastNode) → Type 0
IsKeyed [] = Unit
IsKeyed ((k, n) ∷ m) = (n.key ≡ k) × (load k m ≡ none) × IsKeyed m

abbrev pub nodes_in_range : Option Bytes → Option Bytes → List (Bytes × FastNode) → List FastNode
nodes_in_range start end [] = []
nodes_in_range start end ((k, n) ∷ m) =
    let rest = nodes_in_range start end m in if inside start end false k then n ∷ rest else rest

-- The tests of the source are those of the range.
pub range_tests :
    (start end : Option Bytes) (k : Bytes)
    → inside start end false k ≡ (not (is_before start k) && not (is_from end k))
unfolding start_or_after before_end
range_tests none none k = refl
range_tests none (some end) k = ground arith
range_tests (some start) none k = ground (
  arith,
  lt_of_gt k start,
  gt_of_lt k start,
  lt_of_gt start k,
  gt_of_lt start k,
  eq_of_compare start k,
  eq_of_compare k start,
  compare_refl k,
)
range_tests (some start) (some end) k = ground (
  arith,
  lt_of_gt k start,
  gt_of_lt k start,
  lt_of_gt start k,
  gt_of_lt start k,
  eq_of_compare start k,
  eq_of_compare k start,
  compare_refl k,
)

pub keys_in_range-nodes :
    (start end : Option Bytes) (m : List (Bytes × FastNode))
    → IsKeyed m
    → keys_in_range start end m ≡ node_keys (nodes_in_range start end m)
unfolding keys_in_range
keys_in_range-nodes start end [] h = refl
keys_in_range-nodes start end ((k, n) ∷ m) (e, fresh, h) =
    let r = keys_in_range start end m in
    ap (λ j. if is_before start j then r else (if is_from end j then r else k ∷ r)) e
    ∙ rw (range_tests start end k, keys_in_range-nodes start end m h)
        (by_tests (is_before start k) (is_from end k))
  where
    by_tests :
        (b f : Bool)
        → (if b
            then node_keys (nodes_in_range start end m)
            else (if f
                then node_keys (nodes_in_range start end m)
                else k ∷ node_keys (nodes_in_range start end m)))
          ≡ node_keys (
              if not b && not f then n ∷ nodes_in_range start end m else nodes_in_range start end m)
    by_tests true f = refl
    by_tests false true = refl
    by_tests false false = ap (λ j. j ∷ node_keys (nodes_in_range start end m)) (sym e)

pub load-hit {ℓ} :
    {V : Type ℓ} (k j : Bytes) (v : V) (m : List (Bytes × V))
    → equal_bytes k j ≡ true
    → load k ((j, v) ∷ m) ≡ some v
unfolding load
load-hit k j v m h = rw h refl

pub load-miss {ℓ} :
    {V : Type ℓ} (k j : Bytes) (v : V) (m : List (Bytes × V))
    → equal_bytes k j ≡ false
    → load k ((j, v) ∷ m) ≡ load k m
unfolding load
load-miss k j v m h = rw h refl

pub load-empty {ℓ} : {V : Type ℓ} (k : Bytes) → load {V = V} k [] ≡ none
unfolding load
load-empty k = refl

abbrev pub value_of : Option FastNode → Option Bytes
value_of none = none
value_of (some n) = some n.value

pub either_none {ℓ} : {A : Type ℓ} (b : Bool) → ◌≡◌ {A = Option A} (if b then none else none) none
either_none true = refl
either_none false = refl

pub load-nodes_in_range :
    (start end : Option Bytes) (m : List (Bytes × FastNode)) (k : Bytes)
    → IsKeyed m
    → load k (entries (nodes_in_range start end m))
      ≡ (if inside start end false k then value_of (load k m) else none)
load-nodes_in_range start end [] k h =
    load-empty k
    ∙ sym (
        ap (λ o. if inside start end false k then value_of o else none) (load-empty k)
        ∙ either_none (inside start end false k))
load-nodes_in_range start end ((j, n) ∷ m) k (e, fresh, h) =
    let rest = load-nodes_in_range start end m k h in
    let under : equal_bytes k n.key ≡ equal_bytes k j = ap (equal_bytes k) e in
    elim (Bool-cases (equal_bytes k j)) [
      | inl q ↦
          let same : inside start end false k ≡ inside start end false j =
            ap (inside start end false) (eq_of_equal k j q) in
          elim (Bool-cases (inside start end false j)) [
            | inl c ↦
                rw (same, load-hit k j n m q, c)
                  (load-hit k n.key n.value (entries (nodes_in_range start end m)) (under ∙ q))
            | inr c ↦
                rw (same, c) (rest ∙ ap (λ b. if b then value_of (load k m) else none) (same ∙ c))
          ]
      | inr q ↦ elim (Bool-cases (inside start end false j)) [
        | inl c ↦
            rw (load-miss k j n m q, c)
              (load-miss k n.key n.value (entries (nodes_in_range start end m)) (under ∙ q) ∙ rest)
        | inr c ↦ rw (load-miss k j n m q, c) rest
      ]
    ]

pub nodes_in_range-loaded :
    (start end : Option Bytes) (m : List (Bytes × FastNode))
    → IsKeyed m
    → All (λ n. load n.key m ≡ some n) (nodes_in_range start end m)
nodes_in_range-loaded start end [] h = tt
nodes_in_range-loaded start end ((k, n) ∷ m) (e, fresh, h) =
    let hit : load n.key ((k, n) ∷ m) ≡ some n =
      load-hit n.key k n m (ap (equal_bytes n.key) (sym e) ∙ equal_refl n.key) in
    let rest = All-imp later (nodes_in_range start end m) (nodes_in_range-loaded start end m h) in
    elim (Bool-cases (inside start end false k)) [ inl c ↦ rw c (hit, rest) | inr c ↦ rw c rest ]
  where
    some_none : {o : Option FastNode} (x : FastNode) → o ≡ some x → o ≡ none → ⊥
    some_none x a b = cc

    later : (x : FastNode) → load x.key m ≡ some x → load x.key ((k, n) ∷ m) ≡ some x
    later x q = elim (Bool-cases (equal_bytes x.key k)) [
      | inl c ↦ absurd (some_none x q (ap (λ j. load j m) (eq_of_equal x.key k c) ∙ fresh))
      | inr c ↦ load-miss x.key k n m c ∙ q
    ]

-- Each key stands once.
abbrev pub Once : List FastNode → Type 0
Once [] = Unit
Once (n ∷ l) = (load n.key (entries l) ≡ none) × Once l

pub nodes_in_range-Once :
    (start end : Option Bytes) (m : List (Bytes × FastNode))
    → IsKeyed m
    → Once (nodes_in_range start end m)
nodes_in_range-Once start end [] h = tt
nodes_in_range-Once start end ((k, n) ∷ m) (e, fresh, h) =
    let rest = nodes_in_range-Once start end m h in
    elim (Bool-cases (inside start end false k)) [
      | inl c ↦ rw c (
        load-nodes_in_range start end m n.key h
            ∙ ap (λ o. if inside start end false n.key then value_of o else none)
                (ap (λ j. load j m) e ∙ fresh)
            ∙ either_none (inside start end false n.key),
        rest,
      )
      | inr c ↦ rw c rest
    ]
