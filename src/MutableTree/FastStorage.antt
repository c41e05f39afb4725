-- ===== src/MutableTree/FastStorage.antt =====
-- The fast nodes: how `Get` of the working tree reads through the unsaved additions and removals
-- to the saved fast nodes, and what keeps its answers those of the tree itself.
use iavl.Prelude.{
  ℕ, ◌+◌, ◌%◌, subst, ◌≡◌, refl, sym, ap, ◌∙◌, List, Bool, true, false, not, Option, none, some,
  is_some, if◌then◌else◌, ok, err, panic, stuck, arith, Result, ◌==◌, Bool-cases, inl, inr,
}
use iavl.Prelude.Words.{lt_int64, two_64}
use iavl.Bytes.{Bytes, equal_bytes}
use iavl.Bytes.Map.{load, load-store, load-delete}
use iavl.FastNode.{FastNode, new_fast_node}
use iavl.Avl.{Entry}
use iavl.Avl.Sorted.{find, put, delete, rank}
use iavl.Avl.Entries.{IsSorted, find-put, find-delete}
use iavl.Node.{Node, NodeDb, get}
use iavl.ImmutableTree.{
  ImmutableTree, depth_limit, is_nil, tree_get, get_value, get_fast, get_with_index,
}
use iavl.ImmutableTree.Reads.{Holds, holds_nil, holds_tree, get_with_index-Holds, is_nil-Represents}
use iavl.MutableTree.{MutableTree, set_root, mutable_get, add_unsaved_addition, add_unsaved_removal}
use iavl.MutableTree.Insertion.{note_addition}
use iavl.MutableTree.Contract.{note_removal}

-- What an answer of `GetFastNode` must say of the value that was saved at its key, in a tree of
-- the given version: no fast node in the latest version means no value, and a fast node that is
-- not newer than the tree has the value. A failure says nothing.
abbrev pub Agrees : ℕ → ℕ → Option Bytes → Result (Option FastNode) → Type 0
Agrees version latest saved (err e) = Unit
Agrees version latest saved (ok none) = (version == latest) ≡ true → saved ≡ none
Agrees version latest saved (ok (some fast_node)) =
    lt_int64 version fast_node.version_last_updated_at ≡ false → saved ≡ some fast_node.value
Agrees version latest saved panic = ⊥
Agrees version latest saved stuck = ⊥

-- What the unsaved fast nodes leave of a saved value.
abbrev pub overlay : Option FastNode → Option Bool → Option Bytes → Option Bytes
overlay (some fast_node) removal saved = some fast_node.value
overlay none (some b) saved = none
overlay none none saved = saved

-- The fast storage says of each key what the entries of the working tree say.
pub record Consistent (ndb : NodeDb) (tree : MutableTree) (m : List Entry) : Type 0 where
  pub saved : List Entry
  pub same_mode : tree.immutable.skip_fast_storage_upgrade ≡ tree.skip_fast_storage_upgrade
  pub agrees :
      (k : Bytes)
      → Agrees tree.immutable.version ndb.latest_version (find k saved) (ndb.get_fast_node k)
  pub live :
      tree.skip_fast_storage_upgrade ≡ false
      → (k : Bytes)
      → find k m
        ≡ overlay
            (load k tree.unsaved_fast_node_additions)
            (load k tree.unsaved_fast_node_removals)
            (find k saved)

module _ (ndb : NodeDb) where
  get_value_lem :
      (t : ImmutableTree) (m : List Entry) (k : Bytes)
      → Holds ndb t.root m
      → is_nil t.root ≡ false
      → get_value ndb t k ≡ ok (find k m)
  unfolding get_value get_with_index
  get_value_lem t m k h n =
      let g : (if is_nil t.root then ok (0, none) else get ndb depth_limit t.root k)
          ≡ ok (rank k m, find k m) =
        get_with_index-Holds ndb t m k h in
      let g' : get ndb depth_limit t.root k ≡ ok (rank k m, find k m) =
        ap (λ b. if b then ok (0, none) else get ndb depth_limit t.root k) (sym n) ∙ g in
      rw g' refl

  nil_root :
      (n : Node) (m : List Entry) (k : Bytes) → Holds ndb n m → is_nil n ≡ true → find k m ≡ none
  unfolding is_nil find
  nil_root n m k holds_nil e = refl
  nil_root n m k (holds_tree t rep o b s q) e =
      absurd (ground (arith, is_nil-Represents ndb t n rep))

  get_fast_lem :
      (t : ImmutableTree) (m : List Entry) (k : Bytes) (answer : Result (Option FastNode))
      → get_value ndb t k ≡ ok (find k m)
      → Agrees t.version ndb.latest_version (find k m) answer
      → get_fast ndb t k answer ≡ ok (find k m)
  unfolding get_fast
  get_fast_lem t m k (err e) g a = g
  get_fast_lem t m k (ok none) g a = elim (Bool-cases (t.version == ndb.latest_version)) [
    | inl c ↦ rw (c, a c) refl
    | inr c ↦ rw c g
  ]
  get_fast_lem t m k (ok (some fast_node)) g a =
      elim (Bool-cases (lt_int64 t.version fast_node.version_last_updated_at)) [
        | inl c ↦ rw c g
        | inr c ↦ rw (c, a c) refl
      ]
  get_fast_lem t m k panic g a = absurd a
  get_fast_lem t m k stuck g a = absurd a

  -- The read of the tree itself, where it is the saved entries that are read.
  tree_get_lem :
      (t : ImmutableTree) (m : List Entry) (k : Bytes)
      → Holds ndb t.root m
      → is_nil t.root ≡ false
      → (t.skip_fast_storage_upgrade ≡ false
          → Agrees t.version ndb.latest_version (find k m) (ndb.get_fast_node k))
      → tree_get ndb t k ≡ ok (find k m)
  unfolding tree_get
  tree_get_lem t m k h n a =
      let g = get_value_lem t m k h n in
      let by_mode : Bool → Result (Option Bytes) =
        λ b. if not b then get_fast ndb t k (ndb.get_fast_node k) else get_value ndb t k in
      ap (λ b. if b then ok none else by_mode t.skip_fast_storage_upgrade) n
      ∙ elim (Bool-cases t.skip_fast_storage_upgrade) [
        | inl skip ↦ ap by_mode skip ∙ g
        | inr fast ↦ ap by_mode fast ∙ get_fast_lem t m k (ndb.get_fast_node k) g (a fast)
      ]

  read_through :
      (m : List Entry) (k : Bytes) (read : Result (Option Bytes)) (addition : Option FastNode)
      (removal : Option Bool) (saved : Option Bytes)
      → find k m ≡ overlay addition removal saved
      → (find k m ≡ saved → read ≡ ok (find k m))
      → elim addition [
        | some fast_node ↦ ok (some fast_node.value)
        | none ↦ if is_some removal then ok none else read
      ]
        ≡ ok (find k m)
  read_through m k read (some fast_node) removal saved e g = ap ok (sym e)
  read_through m k read none (some b) saved e g = ap ok (sym e)
  read_through m k read none none saved e g = g e

  -- On a fast storage that agrees, `Get` of the working tree never fails, and finds the value at
  -- the key, whichever of the unsaved changes, the saved fast nodes and the tree answers.
  pub mutable_get-Consistent :
      (tree : MutableTree) (m : List Entry) (k : Bytes)
      → Holds ndb tree.immutable.root m
      → Consistent ndb tree m
      → mutable_get ndb tree k ≡ ok (find k m)
  unfolding mutable_get
  mutable_get-Consistent tree m k h c = elim (Bool-cases (is_nil tree.immutable.root)) [
    | inl n ↦ rw (n, nil_root tree.immutable.root m k h n) refl
    | inr n ↦ elim (Bool-cases tree.skip_fast_storage_upgrade) [
      | inl skip ↦
          let skip' : tree.immutable.skip_fast_storage_upgrade ≡ true = c.same_mode ∙ skip in
          rw (n, skip) (tree_get_lem tree.immutable m k h n (λ fast. absurd (ground arith)))
      | inr fast ↦
          rw (n, fast)
            (read_through m k (tree_get ndb tree.immutable k)
              (load k tree.unsaved_fast_node_additions) (load k tree.unsaved_fast_node_removals)
              (find k c.saved) (c.live fast k)
              (λ e. tree_get_lem tree.immutable m k h n (λ _. rw e (c.agrees k))))
    ]
  ]

  with_addition :
      (tree : MutableTree) (m : List Entry) (root : Node) (x v : Bytes) (f : FastNode)
      → f.value ≡ v
      → Consistent ndb tree m
      → Consistent ndb (set_root (add_unsaved_addition tree x f) root) (put x v m)
  unfolding set_root add_unsaved_addition
  with_addition tree m root x v f e c = record {
    saved = c.saved;
    same_mode = c.same_mode;
    agrees = c.agrees;
    live = λ fast k. elim (Bool-cases (equal_bytes k x)) [
      | inl same ↦
          rw (load-store k x f tree.unsaved_fast_node_additions, find-put k x v m, same)
            (ap some (sym e))
      | inr other ↦
          rw
            (
              load-store k x f tree.unsaved_fast_node_additions,
              load-delete k x tree.unsaved_fast_node_removals,
              find-put k x v m,
              other,
            )
            (c.live fast k)
    ];
  }

  with_removal :
      (tree : MutableTree) (m : List Entry) (root : Node) (x : Bytes)
      → IsSorted m
      → Consistent ndb tree m
      → Consistent ndb (set_root (add_unsaved_removal tree x) root) (delete x m)
  unfolding set_root add_unsaved_removal
  with_removal tree m root x sorted c = record {
    saved = c.saved;
    same_mode = c.same_mode;
    agrees = c.agrees;
    live = λ fast k. elim (Bool-cases (equal_bytes k x)) [
      | inl same ↦
          rw
            (
              load-store k x true tree.unsaved_fast_node_removals,
              load-delete k x tree.unsaved_fast_node_additions,
              find-delete k x m sorted,
              same,
            )
            refl
      | inr other ↦
          rw
            (
              load-store k x true tree.unsaved_fast_node_removals,
              load-delete k x tree.unsaved_fast_node_additions,
              find-delete k x m sorted,
              other,
            )
            (c.live fast k)
    ];
  }

  -- Without fast storage, nothing is said of the entries.
  without_fast :
      (tree : MutableTree) (m m' : List Entry) (root : Node)
      → tree.skip_fast_storage_upgrade ≡ true
      → Consistent ndb tree m
      → Consistent ndb (set_root tree root) m'
  unfolding set_root
  without_fast tree m m' root skip c = record {
    saved = c.saved;
    same_mode = c.same_mode;
    agrees = c.agrees;
    live = λ fast. absurd (ground arith);
  }

  pub note_addition-Consistent :
      (tree : MutableTree) (m : List Entry) (root : Node) (x v : Bytes)
      → Consistent ndb tree m
      → Consistent ndb (set_root (note_addition tree x v) root) (put x v m)
  unfolding new_fast_node
  note_addition-Consistent tree m root x v c =
      let f = new_fast_node x v ((tree.immutable.version + 1) % two_64) in
      let goal : Bool → Type 0 = λ b.
        Consistent ndb (set_root (if not b then add_unsaved_addition tree x f else tree) root)
          (put x v m) in
      elim (Bool-cases tree.skip_fast_storage_upgrade) [
        | inl skip ↦ subst goal (sym skip) (without_fast tree m (put x v m) root skip c)
        | inr fast ↦ subst goal (sym fast) (with_addition tree m root x v f refl c)
      ]

  pub note_removal-Consistent :
      (tree : MutableTree) (m : List Entry) (root : Node) (x : Bytes)
      → IsSorted m
      → Consistent ndb tree m
      → Consistent ndb (set_root (note_removal tree x) root) (delete x m)
  note_removal-Consistent tree m root x sorted c =
      let goal : Bool → Type 0 = λ b.
        Consistent ndb (set_root (if not b then add_unsaved_removal tree x else tree) root)
          (delete x m) in
      elim (Bool-cases tree.skip_fast_storage_upgrade) [
        | inl skip ↦ subst goal (sym skip) (without_fast tree m (delete x m) root skip c)
        | inr fast ↦ subst goal (sym fast) (with_removal tree m root x sorted c)
      ]
