-- ===== src/ImmutableTree/Reads.antt =====
-- The reads of a tree, against the sorted list of entries that it holds.
use iavl.Prelude.{
  ℕ, ◌*◌, ◌^◌, ◌↔◌, ◌<◌, ◌≤◌, ◌≡◌, refl, sym, ap, ◌∙◌, List, [], false, Option, none, some, is_some,
  ok, arith, length, get_elem?,
}
use iavl.Prelude.Words.{two_63, two_64}
use iavl.Bytes.{Bytes}
use iavl.Avl.{Tree, inner, Entry, height, size, to_list, IsOrdered, IsBalanced}
use iavl.Avl.Sorted.{find, rank}
use iavl.Avl.Heights.{height-lt}
use iavl.Avl.Lookup.{length-to_list}
use iavl.Avl.Entries.{IsSorted, IsSorted-to_list, get_elem?-rank, rank-get_elem?}
use iavl.Node.{Node, nil, NodeDb}
use iavl.Node.Represents.{Represents, at_leaf, at_inner}
use iavl.Node.Reads.{get_lem, has_lem, get_by_index_lem, entry_at, entry_of}
use iavl.ImmutableTree.{
  ImmutableTree, depth_limit, is_nil, tree_size, tree_height, tree_has, get_with_index,
  tree_get_by_index,
}

-- The invariant of a root: it is nil, or a node for an ordered and balanced tree whose size is an
-- `int64`; and the entries that it holds, sorted by key.
pub data Holds (ndb : NodeDb) : Node → List Entry → Type 0 where
  holds_nil : Holds ndb nil []
  holds_tree :
      {n : Node} {m : List Entry} (t : Tree)
      → Represents ndb t n
      → IsOrdered t
      → IsBalanced t
      → size t < two_63
      → m ≡ to_list t
      → Holds ndb n m

-- A tree within the machine words is within the depth that the recursions allow.
pub within_limit : (t : Tree) → IsBalanced t → size t < two_63 → height t < depth_limit
unfolding depth_limit
within_limit t b s = omega (arith, height-lt 63 t b s)

pub is_nil-Represents : (ndb : NodeDb) (t : Tree) (n : Node) → Represents ndb t n → is_nil n ≡ false
unfolding is_nil
is_nil-Represents ndb t n (at_leaf e v s h) = refl
is_nil-Represents ndb t n (at_inner e s h ma mb la lb rl rr) = refl

entry_of-some : (o : Option Entry) (x v : Bytes) → entry_of o ≡ some (x, some v) → o ≡ some (x, v)
entry_of-some none x v e = cc
entry_of-some (some (y, w)) x v e = ground arith

ok-injective {ℓ} : {A : Type ℓ} {a b : A} → ok a ≡ ok b → a ≡ b
ok-injective e = cc

module _ (ndb : NodeDb) where
  pub Holds-IsSorted : (n : Node) (m : List Entry) → Holds ndb n m → IsSorted m
  Holds-IsSorted n m holds_nil = tt
  Holds-IsSorted n m (holds_tree t rep o b s e) = rw e (IsSorted-to_list t o)

  get_root_lem :
      (n : Node) (t : ImmutableTree) (m : List Entry) (x : Bytes)
      → t.root ≡ n
      → Holds ndb n m
      → get_with_index ndb t x ≡ ok (rank x m, find x m)
  unfolding get_with_index
  get_root_lem n t m x q holds_nil = rw q (unfold is_nil rank find in refl)
  get_root_lem n t m x q (holds_tree u rep o b s e) =
      rw (q, is_nil-Represents ndb u n rep, e)
        (get_lem ndb u n depth_limit x rep o s (within_limit u b s))

  has_root_lem :
      (n : Node) (t : ImmutableTree) (m : List Entry) (x : Bytes)
      → t.root ≡ n
      → Holds ndb n m
      → tree_has ndb t x ≡ ok (is_some (find x m))
  unfolding tree_has
  has_root_lem n t m x q holds_nil = rw q (unfold is_nil find in refl)
  has_root_lem n t m x q (holds_tree u rep o b s e) =
      rw (q, is_nil-Represents ndb u n rep, e)
        (has_lem ndb u n depth_limit x rep o (within_limit u b s))

  get_by_index_root_lem :
      (n : Node) (t : ImmutableTree) (m : List Entry) (i : ℕ)
      → t.root ≡ n
      → Holds ndb n m
      → i < two_64
      → tree_get_by_index ndb t i ≡ ok (entry_at m i)
  unfolding tree_get_by_index
  get_by_index_root_lem n t m i q holds_nil h = rw q (unfold is_nil in refl)
  get_by_index_root_lem n t m i q (holds_tree u rep o b s e) h =
      rw (q, is_nil-Represents ndb u n rep, e)
        (get_by_index_lem ndb u n depth_limit i rep s h (within_limit u b s))

  -- `GetWithIndex` never fails on a tree that keeps the invariant: it returns the value of the key
  -- in the sorted entries, or none, and the number of entries whose keys are below it.
  pub get_with_index-Holds :
      (t : ImmutableTree) (m : List Entry) (x : Bytes)
      → Holds ndb t.root m
      → get_with_index ndb t x ≡ ok (rank x m, find x m)
  get_with_index-Holds t m x h = get_root_lem t.root t m x refl h

  -- `Has`, which also stops at inner nodes, answers whether the key is among the entries.
  pub tree_has-Holds :
      (t : ImmutableTree) (m : List Entry) (x : Bytes)
      → Holds ndb t.root m
      → tree_has ndb t x ≡ ok (is_some (find x m))
  tree_has-Holds t m x h = has_root_lem t.root t m x refl h

  -- `GetByIndex` returns the entry at the index in the sorted entries, and none for an index out
  -- of range, negative ones included.
  pub tree_get_by_index-Holds :
      (t : ImmutableTree) (m : List Entry) (i : ℕ)
      → Holds ndb t.root m
      → i < two_64
      → tree_get_by_index ndb t i ≡ ok (entry_at m i)
  tree_get_by_index-Holds t m i h k = get_by_index_root_lem t.root t m i refl h k

  -- The two lookups are inverse: a key has a value and an index exactly when the entry at that
  -- index has that key and value.
  pub index_iff :
      (t : ImmutableTree) (m : List Entry) (x v : Bytes) (i : ℕ)
      → Holds ndb t.root m
      → i < two_64
      → (get_with_index ndb t x ≡ ok (i, some v))
        ↔ (tree_get_by_index ndb t i ≡ ok (some (x, some v)))
  index_iff t m x v i h k =
      let by_key = get_with_index-Holds t m x h in
      let by_index = tree_get_by_index-Holds t m i h k in
      (
        (λ q.
            let found : find x m ≡ some v = cc in
            let at : rank x m ≡ i = cc in
            by_index ∙ ap (λ o. ok (entry_of o)) (rw at at (get_elem?-rank x v m found))),
        (λ q.
            let (at, found) =
              rank-get_elem? x v m i (Holds-IsSorted t.root m h)
                (entry_of-some (get_elem? m i) x v (ok-injective (sym by_index ∙ q))) in
            rw (by_key, at, found)),
      )

  size_root_lem :
      (n : Node) (t : ImmutableTree) (m : List Entry)
      → t.root ≡ n
      → Holds ndb n m
      → (tree_size t ≡ length m) × ((k : ℕ) → length m < 2 ^ k → tree_height t ≤ 2 * k)
  unfolding tree_size tree_height
  size_root_lem n t m q holds_nil = rw q (refl, λ k h. omega arith)
  size_root_lem n t m q (holds_tree u (at_leaf {f = f} e_k v e_1 e_0) o b s e) =
      rw (q, e) (e_1, λ k h. omega arith)
  size_root_lem n t m q
        (holds_tree u
          (at_inner {f = f} {k = key} {l = l} {r = r} e_k e_s e_h ma mb la lb rl rr)
          o
          b
          s
          e) =
      let tr = inner key l r in
      rw (q, e)
        (
          e_s ∙ sym (length-to_list tr),
          λ k h. omega (arith, height-lt k tr b (rw (length-to_list tr) at h)),
        )

  -- `Size` is the number of entries; and the tree is balanced: with fewer than 2 ^ k entries its
  -- `Height` is at most 2 * k.
  pub tree_size-Holds :
      (t : ImmutableTree) (m : List Entry)
      → Holds ndb t.root m
      → (tree_size t ≡ length m) × ((k : ℕ) → length m < 2 ^ k → tree_height t ≤ 2 * k)
  tree_size-Holds t m h = size_root_lem t.root t m refl h
