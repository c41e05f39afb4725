-- ===== src/UnsavedFastIterator/Steps.antt =====
-- unsaved_fast_iterator.go: one call of `Next`.
use iavl.Prelude.{
  ℕ, zero, suc, ◌+◌, ◌<◌, ◌≤◌, ◌≡◌, refl, subst, List, [], ◌∷◌, All, Bool, true, false, Option,
  none, some, is_some, drop, get_elem?, ltb, length, if◌then◌else◌, Result, ok, arith, Bool-cases,
  inl, inr,
}
use iavl.Bytes.{Bytes, equal_bytes}
use iavl.Bytes.Map.{load}
use iavl.FastNode.{FastNode}
use iavl.Avl.{Entry}
use iavl.Directions.{InOrder, Precedes}
use iavl.Cache.Recency.{eq_of_equal}
use iavl.MemDb.{BTree}
use iavl.NodeDatabase.{NodeDatabase}
use iavl.FastIterator.{FastIterator}
use iavl.FastIterator.Reads.{OnDisk}
use iavl.UnsavedFastIterator.{
  UnsavedFastIterator, has_unsaved, is_removed, unsaved_key, unsaved_node, is_unsaved_next,
  take_disk, take_unsaved_over, take_either, next,
}
use iavl.UnsavedFastIterator.Merges.{
  Merges, Merges-done, Merges-skip, Merges-disk, Merges-unsaved, Merges-over, Before-all,
  disk_first, unsaved_first,
}

abbrev pub entry_of : FastNode → Entry
entry_of n = (n.key, n.value)

abbrev pub entries : List FastNode → List Entry
entries [] = []
entries (n ∷ l) = entry_of n ∷ entries l

abbrev pub node_keys : List FastNode → List Bytes
node_keys [] = []
node_keys (n ∷ l) = n.key ∷ node_keys l

-- an index into a list, and what is left from there
pub drop-end : (i : ℕ) (l : List Bytes) → drop i l ≡ [] → ltb i (length l) ≡ false
drop-end zero [] e = refl
drop-end zero (x ∷ l) e = absurd cc
drop-end (suc i) [] e = ground arith
drop-end (suc i) (x ∷ l) e = ground (arith, drop-end i l e)

drop-more :
    (i : ℕ) (l rest : List Bytes) (x : Bytes) → drop i l ≡ x ∷ rest → ltb i (length l) ≡ true
drop-more zero [] rest x e = absurd cc
drop-more zero (y ∷ l) rest x e = ground arith
drop-more (suc i) [] rest x e = absurd cc
drop-more (suc i) (y ∷ l) rest x e = ground (arith, drop-more i l rest x e)

drop-first :
    (i : ℕ) (l rest : List Bytes) (x : Bytes) → drop i l ≡ x ∷ rest → get_elem? l i ≡ some x
drop-first zero [] rest x e = absurd cc
drop-first zero (y ∷ l) rest x e = cc
drop-first (suc i) [] rest x e = absurd cc
drop-first (suc i) (y ∷ l) rest x e = drop-first i l rest x e

drop-rest : (i : ℕ) (l rest : List Bytes) (x : Bytes) → drop i l ≡ x ∷ rest → drop (i + 1) l ≡ rest
drop-rest zero [] rest x e = absurd cc
drop-rest zero (y ∷ l) rest x e = cc
drop-rest (suc i) [] rest x e = absurd cc
drop-rest (suc i) (y ∷ l) rest x e =
    subst (λ n. drop n (y ∷ l) ≡ rest) (suc_plus i) (drop-rest i l rest x e)
  where
    suc_plus : (i : ℕ) → suc (i + 1) ≡ suc i + 1
    suc_plus i = omega arith

module _ (B : BTree) (ndb : NodeDatabase B) (start end : Option Bytes) (ascending : Bool)
    (additions : List (Bytes × FastNode)) (removals : List (Bytes × Bool)) (keys : List Bytes) where
  -- an iterator over these unsaved fast nodes
  abbrev pub state : FastIterator → ℕ → Option Bytes → Option Bytes → UnsavedFastIterator
  state f idx k v = record {
    start = start;
    end = end;
    ascending = ascending;
    next_key = k;
    next_val = v;
    fast_iterator = f;
    next_unsaved_node_idx = idx;
    unsaved_fast_node_additions = additions;
    unsaved_fast_node_removals = removals;
    unsaved_fast_nodes_to_sort = keys;
  }

  abbrev pub removed : Bytes → Bool
  removed k = is_some (load k removals)

  abbrev pub IsMerge : List FastNode → List FastNode → List Entry → Type 0
  IsMerge d u out = Merges ascending removed (entries d) (entries u) out

  -- what is still to come, from the disk and of the unsaved ones
  pub record Left (f : FastIterator) (idx : ℕ) (d u : List FastNode) : Type 0 where
    pub disk : OnDisk B ndb f d
    pub left : drop idx keys ≡ node_keys u
    pub loaded : All (λ n. load n.key additions ≡ some n) u
    pub disk_order : InOrder ascending (entries d)
    pub unsaved_order : InOrder ascending (entries u)

  -- The outcome of `Next`: the end, or the first entry of any merge.
  pub data Outcome (r : Result UnsavedFastIterator) (d u : List FastNode) : Type 0 where
    finished :
        (f : FastIterator) (idx : ℕ)
        → r ≡ ok (state f idx none none)
        → Left f idx [] []
        → IsMerge d u []
        → Outcome r d u
    found :
        (f : FastIterator) (idx : ℕ) (n : FastNode) (d' u' : List FastNode)
        → r ≡ ok (state f idx (some n.key) (some n.value))
        → Left f idx d' u'
        → length d' ≤ length d
        → length d' + length u' < length d + length u
        → ((out : List Entry) → IsMerge d' u' out → IsMerge d u (entry_of n ∷ out))
        → Outcome r d u

  unsaved_key_lem :
      (f : FastIterator) (idx : ℕ) (k v : Option Bytes) (n : FastNode) (u : List FastNode)
      → drop idx keys ≡ n.key ∷ node_keys u
      → unsaved_key (state f idx k v) ≡ ok n.key
  unfolding unsaved_key
  unsaved_key_lem f idx k v n u e = rw (drop-first idx keys (node_keys u) n.key e) refl

  unsaved_node_lem :
      (f : FastIterator) (idx : ℕ) (k v : Option Bytes) (n : FastNode)
      → load n.key additions ≡ some n
      → unsaved_node (state f idx k v) n.key ≡ ok n
  unfolding unsaved_node load
  unsaved_node_lem f idx k v n e = rw e refl

  -- the saved fast node is next
  disk_Outcome :
      (f : FastIterator) (idx : ℕ) (k v : Option Bytes) (x : FastNode) (d u : List FastNode)
      → Left f idx (x ∷ d) u
      → removed x.key ≡ false
      → All (λ e. Precedes ascending x.key e.0) (entries u)
      → Outcome (take_disk B ndb (state f idx k v)) (x ∷ d) u
  unfolding take_disk
  disk_Outcome f idx k v x d u h r before =
      let (after, here, key, value, moved, rest) = h.disk in
      found after idx x d u (rw (key, value, moved) refl)
        (record {
          disk = rest;
          left = h.left;
          loaded = h.loaded;
          disk_order = h.disk_order.1;
          unsaved_order = h.unsaved_order;
        })
        (omega arith) (omega arith)
        (λ out m.
          Merges-disk ascending removed (entry_of x) (entries d) (entries u) out r h.disk_order.0
            before m)

  -- the unsaved fast node is next
  unsaved_Left :
      (f : FastIterator) (idx : ℕ) (n : FastNode) (d u : List FastNode)
      → Left f idx d (n ∷ u)
      → Left f (idx + 1) d u
  unsaved_Left f idx n d u h = record {
    disk = h.disk;
    left = drop-rest idx keys (node_keys u) n.key h.left;
    loaded = h.loaded.1;
    disk_order = h.disk_order;
    unsaved_order = h.unsaved_order.1;
  }

  over_Outcome :
      (f : FastIterator) (idx : ℕ) (k v : Option Bytes) (x n : FastNode) (d u : List FastNode)
      → Left f idx (x ∷ d) (n ∷ u)
      → is_unsaved_next ascending x.key n.key ≡ true
      → Outcome (take_unsaved_over B ndb (state f idx k v) x.key n.key n) (x ∷ d) (n ∷ u)
  unfolding take_unsaved_over
  over_Outcome f idx k v x n d u h first =
      let (after, here, key, value, moved, rest) = h.disk in
      elim (Bool-cases (equal_bytes x.key n.key)) [
        | inl c ↦
            let same : x.key ≡ n.key = eq_of_equal x.key n.key c in
            found after (idx + 1) n d u (rw (c, moved) refl)
              (unsaved_Left after idx n d u (record {
                disk = rest;
                left = h.left;
                loaded = h.loaded;
                disk_order = h.disk_order.1;
                unsaved_order = h.unsaved_order;
              }))
              (omega arith) (omega arith)
              (λ out m.
                Merges-over ascending removed (entry_of x) (entry_of n) (entries d) (entries u) out
                  same
                  (subst (λ a. All (λ e. Precedes ascending a e.0) (entries d)) same h.disk_order.0)
                  h.unsaved_order.0 m)
        | inr c ↦
            found f (idx + 1) n (x ∷ d) u (rw c refl) (unsaved_Left f idx n (x ∷ d) u h)
              (omega arith) (omega arith)
              (λ out m.
                Merges-unsaved ascending removed (entry_of n) (entries (x ∷ d)) (entries u) out
                  (Before-all ascending removed n.key (entry_of x) (entries d)
                    (unsaved_first ascending x.key n.key first c) h.disk_order)
                  h.unsaved_order.0 m)
      ]

  either_Outcome :
      (f : FastIterator) (idx : ℕ) (k v : Option Bytes) (x n : FastNode) (d u : List FastNode)
      → Left f idx (x ∷ d) (n ∷ u)
      → removed x.key ≡ false
      → Outcome (take_either B ndb (state f idx k v) (some x.key)) (x ∷ d) (n ∷ u)
  unfolding take_either
  either_Outcome f idx k v x n d u h r =
      rw (unsaved_key_lem f idx k v n u h.left, unsaved_node_lem f idx k v n h.loaded.0)
        (elim (Bool-cases (is_unsaved_next ascending x.key n.key)) [
          | inl c ↦ rw c (over_Outcome f idx k v x n d u h c)
          | inr c ↦ rw c (
              disk_Outcome f idx k v x d (n ∷ u) h r (
                Before-all ascending removed x.key (entry_of n) (entries u)
                  (disk_first ascending x.key n.key c) h.unsaved_order))
        ])

  kept_Outcome :
      (f : FastIterator) (idx : ℕ) (k v : Option Bytes) (x : FastNode) (d u : List FastNode)
      → Left f idx (x ∷ d) u
      → removed x.key ≡ false
      → Outcome
          (if has_unsaved (state f idx k v)
            then take_either B ndb (state f idx k v) (some x.key)
            else take_disk B ndb (state f idx k v))
          (x ∷ d)
          u
  kept_Outcome f idx k v x d [] h r =
      rw (drop-end idx keys h.left) (disk_Outcome f idx k v x d [] h r tt)
  kept_Outcome f idx k v x d (n ∷ u) h r =
      rw (drop-more idx keys (node_keys u) n.key h.left) (either_Outcome f idx k v x n d u h r)

  -- A saved fast node that is removed changes nothing.
  skip_Outcome :
      {r : Result UnsavedFastIterator} (x : FastNode) (d u : List FastNode)
      → removed x.key ≡ true
      → Outcome r d u
      → Outcome r (x ∷ d) u
  skip_Outcome x d u e (finished f idx q left m) =
      finished f idx q left
        (Merges-skip ascending removed (entry_of x) (entries d) (entries u) [] e m)
  skip_Outcome x d u e (found f idx n d' u' q left a b m) =
      found f idx n d' u' q left (omega arith) (omega arith) (λ out p.
        Merges-skip ascending removed (entry_of x) (entries d) (entries u) (entry_of n ∷ out) e
          (m out p))

  -- With more fuel than saved fast nodes are left, `Next` gives the end or the next entry.
  pub next-Outcome :
      (fuel : ℕ) (f : FastIterator) (idx : ℕ) (k v : Option Bytes) (d u : List FastNode)
      → length d < fuel
      → Left f idx d u
      → Outcome (next B fuel ndb (state f idx k v)) d u
  unfolding next is_removed load
  next-Outcome zero f idx k v d u l h = absurd (omega arith)
  next-Outcome (suc fuel) f idx k v [] [] l h =
      rw (h.disk.1, h.disk.0, drop-end idx keys h.left)
        (finished f idx refl h (Merges-done ascending removed))
  next-Outcome (suc fuel) f idx k v [] (n ∷ u) l h =
      rw
        (
          h.disk.1,
          h.disk.0,
          drop-more idx keys (node_keys u) n.key h.left,
          unsaved_key_lem f idx k v n u h.left,
          unsaved_node_lem f idx k v n h.loaded.0,
        )
        (found f (idx + 1) n [] u refl (unsaved_Left f idx n [] u h) (omega arith) (omega arith)
          (λ out m.
            Merges-unsaved ascending removed (entry_of n) [] (entries u) out tt h.unsaved_order.0
              m))
  next-Outcome (suc fuel) f idx k v (x ∷ d) u l h =
      let (after, here, key, value, moved, rest) = h.disk in
      elim (Bool-cases (removed x.key)) [
        | inl c ↦
            rw (key, here, c, moved)
              (skip_Outcome x d u c (
                next-Outcome fuel after idx k v d u (omega arith) (record {
                  disk = rest;
                  left = h.left;
                  loaded = h.loaded;
                  disk_order = h.disk_order.1;
                  unsaved_order = h.unsaved_order;
                })))
        | inr c ↦ rw (key, here, c) (kept_Outcome f idx k v x d u h c)
      ]
