-- ===== src/Avl/Remove.antt =====
-- `remove` of the reference, with the search order and the sorted list of the leaves.
use iavl.Prelude.{
  ◌≡◌, refl, sym, ap, ◌∙◌, List, ◌++◌, false, Bool-cases, inl, inr, arith, Ordering-cases, [], ◌∷◌,
  All, All-append, append-nil, Option, none, some, get_or,
}
use iavl.Bytes.{Bytes, compare_bytes, lt_bytes, equal_bytes}
use iavl.Bytes.Order.{lt_trans, gt_of_lt, compare_refl}
use iavl.Avl.{
  Tree, leaf, inner, Entry, min_key, to_list, AllKeys, ◌≺◌, IsOrdered, Removal, absent, gone, kept,
  remove, remove_left, remove_right,
}
use iavl.Avl.Sorted.{
  find, find-append_above, find-append_below, delete, delete-append_above, delete-append_below,
  Below-to_list, StartsAbove-to_list, below_ge, lt_of_test, Below, StartsAbove,
}
use iavl.Avl.Contents.{
  AllKeys-imp, AllKeys-min, to_list-balance, min_key-balance, balance-IsOrdered,
}

-- The bounds of a tree are those of its list, and deletion keeps them.
pub AllKeys→All {ℓ} :
    (P : Bytes → Type ℓ) (t : Tree) → AllKeys P t → All (λ (e : Entry). P e.0) (to_list t)
AllKeys→All P (leaf k v) h = (h, tt)
AllKeys→All P (inner k l r) (hl, hr) =
    All-append (λ (e : Entry). P e.0) (to_list l) (to_list r) (AllKeys→All P l hl)
      (AllKeys→All P r hr)

All-split {ℓ} : (P : Entry → Type ℓ) (xs ys : List Entry) → All P (xs ++ ys) → All P xs × All P ys
All-split P [] ys h = (tt, h)
All-split P (x ∷ xs) ys (p, h) = let (a, b) = All-split P xs ys h in ((p, a), b)

All→AllKeys {ℓ} :
    (P : Bytes → Type ℓ) (t : Tree) → All (λ (e : Entry). P e.0) (to_list t) → AllKeys P t
All→AllKeys P (leaf k v) h = h.0
All→AllKeys P (inner k l r) h =
    let (a, b) = All-split (λ (e : Entry). P e.0) (to_list l) (to_list r) h in
    (All→AllKeys P l a, All→AllKeys P r b)

All-delete {ℓ} : (P : Entry → Type ℓ) (x : Bytes) (l : List Entry) → All P l → All P (delete x l)
unfolding delete
All-delete P x [] h = h
All-delete P x ((k, w) ∷ l) (p, h) = elim (Ordering-cases (compare_bytes x k)) [
  | inl a ↦ rw (a, delete) (p, h)
  | inr (inl a) ↦ rw (a, delete) h
  | inr (inr a) ↦ rw (a, delete) (p, All-delete P x l h)
]

AllKeys-of_delete {ℓ} :
    (P : Bytes → Type ℓ) (x : Bytes) (t t' : Tree)
    → to_list t' ≡ delete x (to_list t)
    → AllKeys P t
    → AllKeys P t'
AllKeys-of_delete P x t t' e h =
    All→AllKeys P t' (rw e (All-delete (λ (d : Entry). P d.0) x (to_list t) (AllKeys→All P t h)))

-- No key of an ordered tree is below its least key.
pub AllKeys-from_min : (t : Tree) → IsOrdered t → AllKeys (λ x. lt_bytes x (min_key t) ≡ false) t
AllKeys-from_min (leaf k v) h = ground (arith, compare_refl k)
AllKeys-from_min (inner k l r) (hk, e, hl, hr) =
    let low : min_key l ≺ k = AllKeys-min (λ y. y ≺ k) l hk in
    (
      AllKeys-from_min l hl,
      AllKeys-imp (λ x p. above x k (min_key l) low (rw (← e) at p)) r (AllKeys-from_min r hr),
    )
  where
    above : (x k m : Bytes) → m ≺ k → lt_bytes x k ≡ false → lt_bytes x m ≡ false
    above x k m low p = ground (arith, lt_trans x m k, gt_of_lt m k low)

-- What a removal says of the tree before it.
pub record Kept (t : Tree) (x : Bytes) (t' : Tree) (new_key : Option Bytes) (v : Bytes)
    : Type 0 where
  pub contents : to_list t' ≡ delete x (to_list t)
  pub found : find x (to_list t) ≡ some v
  pub ordered : IsOrdered t'
  pub least : min_key t' ≡ get_or new_key (min_key t)

abbrev pub RemovedAs : Tree → Bytes → Removal → Type 0
RemovedAs t x absent = find x (to_list t) ≡ none
RemovedAs t x (gone v) = (delete x (to_list t) ≡ []) × (find x (to_list t) ≡ some v)
RemovedAs t x (kept t' new_key v) = Kept t x t' new_key v

module _ (k : Bytes) (l r : Tree) (x : Bytes) (h : IsOrdered (inner k l r)) where
  removed_left :
      (res : Removal) → x ≺ k → RemovedAs l x res → RemovedAs (inner k l r) x (remove_left k r res)
  unfolding remove_left
  removed_left res below done = go res done
    where
      starts : StartsAbove x (to_list r)
      starts = StartsAbove-to_list x r (rw (h.1) at below)

      deleted : delete x (to_list l ++ to_list r) ≡ delete x (to_list l) ++ to_list r
      deleted = delete-append_below x (to_list l) (to_list r) starts

      found : find x (to_list l ++ to_list r) ≡ find x (to_list l)
      found = find-append_below x (to_list l) (to_list r) starts

      go : (res : Removal) → RemovedAs l x res → RemovedAs (inner k l r) x (remove_left k r res)
      go absent e = found ∙ e
      go (gone v) (e, f) = record {
        contents = sym (deleted ∙ ap (λ d. d ++ to_list r) e);
        found = found ∙ f;
        ordered = h.3;
        least = sym h.1;
      }
      go (kept l' new_key v) d = record {
        contents = to_list-balance k l' r ∙ ap (λ d. d ++ to_list r) d.contents ∙ sym deleted;
        found = found ∙ d.found;
        ordered =
            balance-IsOrdered k l' r
              (AllKeys-of_delete (λ y. y ≺ k) x l l' d.contents h.0, h.1, d.ordered, h.3);
        least = min_key-balance k l' r ∙ d.least;
      }

  removed_right :
      (res : Removal)
      → lt_bytes x k ≡ false
      → RemovedAs r x res
      → RemovedAs (inner k l r) x (remove_right k l res)
  unfolding remove_right
  removed_right res above done = go res done
    where
      below : Below x (to_list l)
      below = Below-to_list x l (AllKeys-imp (λ y p. below_ge y k x p above) l h.0)

      deleted : delete x (to_list l ++ to_list r) ≡ to_list l ++ delete x (to_list r)
      deleted = delete-append_above x (to_list l) (to_list r) below

      found : find x (to_list l ++ to_list r) ≡ find x (to_list r)
      found = find-append_above x (to_list l) (to_list r) below

      from : AllKeys (λ y. lt_bytes y k ≡ false) r
      from = rw (h.1) (AllKeys-from_min r h.3)

      go : (res : Removal) → RemovedAs r x res → RemovedAs (inner k l r) x (remove_right k l res)
      go absent e = found ∙ e
      go (gone v) (e, f) = record {
        contents = sym (deleted ∙ ap (λ d. to_list l ++ d) e ∙ append-nil (to_list l));
        found = found ∙ f;
        ordered = h.2;
        least = refl;
      }
      go (kept r' new_key v) d =
          let k' = get_or new_key k in
          let same : k' ≡ min_key r' = ap (get_or new_key) h.1 ∙ sym d.least in
          let up : lt_bytes k' k ≡ false = rw same (
            AllKeys-min (λ y. lt_bytes y k ≡ false) r'
              (AllKeys-of_delete (λ y. lt_bytes y k ≡ false) x r r' d.contents from)) in
          record {
            contents = to_list-balance k' l r' ∙ ap (λ d. to_list l ++ d) d.contents ∙ sym deleted;
            found = found ∙ d.found;
            ordered =
                balance-IsOrdered k' l r'
                  (AllKeys-imp (λ y p. below_ge y k k' p up) l h.0, same, h.2, d.ordered);
            least = min_key-balance k' l r';
          }

pub remove_correct : (t : Tree) (x : Bytes) → IsOrdered t → RemovedAs t x (remove t x)
unfolding remove
remove_correct (leaf k w) x h = elim (Bool-cases (equal_bytes x k)) [
  | inl a ↦ rw a (unfold delete find in (ground arith, ground arith))
  | inr a ↦ rw a (unfold find in ground arith)
]
remove_correct (inner k l r) x h = elim (Bool-cases (lt_bytes x k)) [
  | inl a ↦
      rw (a, remove)
        (removed_left k l r x h (remove l x) (lt_of_test x k a) (remove_correct l x h.2))
  | inr a ↦ rw (a, remove) (removed_right k l r x h (remove r x) a (remove_correct r x h.3))
]
