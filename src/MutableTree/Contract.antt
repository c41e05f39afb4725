-- ===== src/MutableTree/Contract.antt =====
-- `Set` and `Remove` against the sorted list of entries that the working tree holds.
use iavl.Prelude.{
  ◌+◌, ◌<◌, ◌≡◌, refl, sym, ap, ◌∙◌, List, [], not, none, some, is_some, if◌then◌else◌, ok, arith,
  length,
}
use iavl.Prelude.Words.{two_63}
use iavl.Bytes.{Bytes}
use iavl.Avl
use iavl.Avl.{
  Tree, leaf, Entry, size, to_list, IsOrdered, IsBalanced, insert, Removal, absent, gone, kept,
}
use iavl.Avl.Sorted.{find, put, delete}
use iavl.Avl.Insert.{insert-IsOrdered, to_list-insert, insert_updated}
use iavl.Avl.Remove.{remove_correct, RemovedAs}
use iavl.Avl.Heights.{insert-Grown, remove-Shrunk, ShrunkTo}
use iavl.Avl.Sizes.{size-insert, size-remove, SmallerBy}
use iavl.Avl.Lookup.{length-to_list}
use iavl.Avl.Entries.{delete-absent}
use iavl.Node.{Node, nil, NodeDb, new_node}
use iavl.Node.Represents.{Represents, new_node-Represents}
use iavl.ImmutableTree.{is_nil, depth_limit}
use iavl.ImmutableTree.Reads.{Holds, holds_nil, holds_tree, within_limit, is_nil-Represents}
use iavl.MutableTree.{MutableTree, set, remove, set_root, add_unsaved_removal, recursive_remove}
use iavl.MutableTree.Insertion.{note_addition, recursive_set_lem}
use iavl.MutableTree.Removal.{Answers, recursive_remove_lem}

-- The mark that a removal leaves behind.
abbrev pub note_removal : MutableTree → Bytes → MutableTree
note_removal tree key =
    if not tree.skip_fast_storage_upgrade then add_unsaved_removal tree key else tree

module _ (ndb : NodeDb) where
  set_root_lem :
      (n : Node) (tree : MutableTree) (m : List Entry) (x v : Bytes)
      → tree.immutable.root ≡ n
      → Holds ndb n m
      → length m + 1 < two_63
      → (root : Node) × (set ndb tree x (some v)
          ≡ ok (is_some (find x m), set_root (note_addition tree x v) root))
        × Holds ndb root (put x v m)
  unfolding set
  set_root_lem n tree m x v q holds_nil fits = (
    new_node x v,
    rw q (unfold is_nil find in refl),
    holds_tree {m = put x v []} (leaf x v) (new_node-Represents ndb x v) tt tt (omega arith)
        (unfold put in refl),
  )
  set_root_lem n tree m x v q (holds_tree t rep o b s e) fits =
      let small : size t + 1 < two_63 = omega (arith, length-to_list t, ap length e) in
      let rep' : Represents ndb t tree.immutable.root = rw q rep in
      let r =
        recursive_set_lem ndb tree x v t tree.immutable.root depth_limit rep' b small
          (within_limit t b s) in
      let grown : size (insert t x v).0 < two_63 = ground (arith, size-insert t x v) in
      (
        r.n,
        rw (is_nil-Represents ndb t tree.immutable.root rep', r.result, insert_updated t x v o, e)
            refl,
        holds_tree (insert t x v).0 r.rep (insert-IsOrdered t x v o) (insert-Grown t x v b).balanced
            grown (ap (put x v) e ∙ sym (to_list-insert t x v o)),
      )

  -- `Set` of a value never fails on a working tree that keeps the invariant, if one more entry
  -- fits an `int64`: it says whether the key was there, puts the value at the key in the sorted
  -- entries, notes the fast node, and the new tree keeps the invariant.
  pub set-Holds :
      (tree : MutableTree) (m : List Entry) (x v : Bytes)
      → Holds ndb tree.immutable.root m
      → length m + 1 < two_63
      → (root : Node) × (set ndb tree x (some v)
          ≡ ok (is_some (find x m), set_root (note_addition tree x v) root))
        × Holds ndb root (put x v m)
  set-Holds tree m x v h fits = set_root_lem tree.immutable.root tree m x v refl h fits

  remove_answer :
      (n : Node) (tree : MutableTree) (m : List Entry) (x : Bytes) (t : Tree) (res : Removal)
      → tree.immutable.root ≡ n
      → Represents ndb t n
      → IsOrdered t
      → IsBalanced t
      → size t < two_63
      → m ≡ to_list t
      → RemovedAs t x res
      → SmallerBy t res
      → ShrunkTo t res
      → Answers ndb (recursive_remove ndb depth_limit n x) res
      → (root : Node) × (remove ndb tree x
          ≡ ok (
            find x m,
            is_some (find x m),
            (if is_some (find x m) then set_root (note_removal tree x) root else tree),
          ))
        × Holds ndb root (delete x m)
  unfolding remove
  remove_answer n tree m x t absent q rep o b s e r small low (n', a) =
      let missing : find x m ≡ none = ap (find x) e ∙ r in
      (
        n,
        rw (q, is_nil-Represents ndb t n rep, a, missing),
        rw (delete-absent x m missing) (holds_tree t rep o b s e),
      )
  remove_answer n tree m x t (gone v) q rep o b s e r small low a =
      let found : find x m ≡ some v = ap (find x) e ∙ r.1 in
      (nil, rw (q, is_nil-Represents ndb t n rep, a, found), rw (ap (delete x) e ∙ r.0) holds_nil)
  remove_answer n tree m x t (kept t' new_key v) q rep o b s e r small low (n', a, rep') =
      let found : find x m ≡ some v = ap (find x) e ∙ r.found in
      (
        n',
        rw (q, is_nil-Represents ndb t n rep, a, found),
        holds_tree t' rep' r.ordered low.balanced (omega arith) (ap (delete x) e ∙ sym r.contents),
      )

  remove_root_lem :
      (n : Node) (tree : MutableTree) (m : List Entry) (x : Bytes)
      → tree.immutable.root ≡ n
      → Holds ndb n m
      → (root : Node) × (remove ndb tree x
          ≡ ok (
            find x m,
            is_some (find x m),
            (if is_some (find x m) then set_root (note_removal tree x) root else tree),
          ))
        × Holds ndb root (delete x m)
  unfolding remove
  remove_root_lem n tree m x q holds_nil =
      (nil, rw q (unfold is_nil find in refl), unfold delete in holds_nil)
  remove_root_lem n tree m x q (holds_tree t rep o b s e) =
      remove_answer n tree m x t (Avl.remove t x) q rep o b s e (remove_correct t x o)
        (size-remove t x) (remove-Shrunk t x b)
        (recursive_remove_lem ndb t n depth_limit x rep b s (within_limit t b s))

  -- `Remove` never fails on a working tree that keeps the invariant: it returns the value of the
  -- key, if it was there, and whether it was; it deletes the key from the sorted entries and marks
  -- the removal, or leaves the tree as it is if there was no such key; and the new tree keeps the
  -- invariant.
  pub remove-Holds :
      (tree : MutableTree) (m : List Entry) (x : Bytes)
      → Holds ndb tree.immutable.root m
      → (root : Node) × (remove ndb tree x
          ≡ ok (
            find x m,
            is_some (find x m),
            (if is_some (find x m) then set_root (note_removal tree x) root else tree),
          ))
        × Holds ndb root (delete x m)
  remove-Holds tree m x h = remove_root_lem tree.immutable.root tree m x refl h
