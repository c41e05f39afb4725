-- ===== src/MutableTree/Session.antt =====
-- A session on the working tree: writes and removals one after the other, between two saves.
use iavl.Prelude.{
  ◌∙◌, false, true, ◌%◌, ◌+◌, ◌<◌, ◌≤◌, ◌≡◌, refl, List, [], ◌∷◌, some, Result, ok, ◌>>=◌, arith,
  length, inl, inr, Option-cases, Bool, not, if◌then◌else◌,
}
use iavl.Prelude.Words.{two_63, two_64}
use iavl.Bytes.{Bytes}
use iavl.Avl.{Entry}
use iavl.Avl.Sorted.{find, put, delete}
use iavl.Avl.Entries.{delete-absent}
use iavl.Node.{NodeDb, Node}
use iavl.ImmutableTree.Reads.{Holds, Holds-IsSorted}
use iavl.MutableTree.{
  MutableTree, set, remove, mutable_get, set_root, add_unsaved_addition, add_unsaved_removal,
}
use iavl.FastNode.{FastNode, new_fast_node}
use iavl.MutableTree.Insertion.{note_addition}
use iavl.MutableTree.Contract.{set-Holds, remove-Holds, note_removal}
use iavl.MutableTree.FastStorage.{
  Consistent, mutable_get-Consistent, note_addition-Consistent, note_removal-Consistent,
}

pub data Change : Type 0 where
  write : Bytes → Bytes → Change
  erase : Bytes → Change

-- What a change does to the entries.
abbrev pub changed : Change → List Entry → List Entry
changed (write key value) m = put key value m
changed (erase key) m = delete key m

unfoldable pub changed_all : List Change → List Entry → List Entry
changed_all [] m = m
changed_all (c ∷ cs) m = changed_all cs (changed c m)

-- The invariant of the working tree.
pub record IsWorking (ndb : NodeDb) (tree : MutableTree) (m : List Entry) : Type 0 where
  pub holds : Holds ndb tree.immutable.root m
  pub fast : Consistent ndb tree m

length-put : (x v : Bytes) (m : List Entry) → length (put x v m) ≤ length m + 1
unfolding put
length-put x v [] = ground arith
length-put x v ((k, w) ∷ m) = ground (arith, length-put x v m)

length-delete : (x : Bytes) (m : List Entry) → length (delete x m) ≤ length m
unfolding delete
length-delete x [] = ground arith
length-delete x ((k, w) ∷ m) = ground (arith, length-delete x m)

length-changed : (c : Change) (m : List Entry) → length (changed c m) ≤ length m + 1
length-changed (write x v) m = length-put x v m
length-changed (erase x) m = omega (arith, length-delete x m)

-- What changes of a working tree leave alone: all that `Rollback` reads.
pub record SameSaved (tree after : MutableTree) : Type 0 where
  pub last_saved : after.last_saved ≡ tree.last_saved
  pub version : after.immutable.version ≡ tree.immutable.version
  pub mode : after.skip_fast_storage_upgrade ≡ tree.skip_fast_storage_upgrade

SameSaved-refl : (tree : MutableTree) → SameSaved tree tree
SameSaved-refl tree = record { last_saved = refl; version = refl; mode = refl }

SameSaved-trans : (a b c : MutableTree) → SameSaved a b → SameSaved b c → SameSaved a c
SameSaved-trans a b c h k = record {
  last_saved = k.last_saved ∙ h.last_saved;
  version = k.version ∙ h.version;
  mode = k.mode ∙ h.mode;
}

note_addition-SameSaved :
    (tree : MutableTree) (root : Node) (key value : Bytes)
    → SameSaved tree (set_root (note_addition tree key value) root)
unfolding set_root add_unsaved_addition
note_addition-SameSaved tree root key value = by_mode (not tree.skip_fast_storage_upgrade)
  where
    f : FastNode
    f = new_fast_node key value ((tree.immutable.version + 1) % two_64)

    by_mode :
        (b : Bool)
        → SameSaved tree (set_root (if b then add_unsaved_addition tree key f else tree) root)
    by_mode true = record { last_saved = refl; version = refl; mode = refl }
    by_mode false = record { last_saved = refl; version = refl; mode = refl }

note_removal-SameSaved :
    (tree : MutableTree) (root : Node) (key : Bytes)
    → SameSaved tree (set_root (note_removal tree key) root)
unfolding set_root add_unsaved_removal
note_removal-SameSaved tree root key = by_mode (not tree.skip_fast_storage_upgrade)
  where
    by_mode :
        (b : Bool)
        → SameSaved tree (set_root (if b then add_unsaved_removal tree key else tree) root)
    by_mode true = record { last_saved = refl; version = refl; mode = refl }
    by_mode false = record { last_saved = refl; version = refl; mode = refl }

module _ (ndb : NodeDb) where
  -- The tree after a change by `Set` or by `Remove`.
  unfoldable pub apply : Change → MutableTree → Result MutableTree
  unfolding set remove
  apply (write key value) tree = do (updated, tree) ← set ndb tree key (some value); ok tree
  apply (erase key) tree = do (value, removed, tree) ← remove ndb tree key; ok tree

  unfoldable pub apply_all : List Change → MutableTree → Result MutableTree
  unfolding apply
  apply_all [] tree = ok tree
  apply_all (c ∷ cs) tree = do tree ← apply c tree; apply_all cs tree

  erased_lem :
      (tree : MutableTree) (m : List Entry) (key : Bytes)
      → IsWorking ndb tree m
      → (tree' : MutableTree) × (apply (erase key) tree ≡ ok tree')
        × IsWorking ndb tree' (delete key m)
        × SameSaved tree tree'
  unfolding apply set_root
  erased_lem tree m key w =
      let (root, q, h) = remove-Holds ndb tree m key w.holds in
      let sorted = Holds-IsSorted ndb tree.immutable.root m w.holds in
      elim (Option-cases (find key m)) [
        | inl missing ↦
            (tree, rw (q, missing) refl, rw (delete-absent key m missing) w, SameSaved-refl tree)
        | inr (v, found) ↦ (
          set_root (note_removal tree key) root,
          rw (q, found) refl,
          record { holds = h; fast = note_removal-Consistent ndb tree m root key sorted w.fast },
          note_removal-SameSaved tree root key,
        )
      ]

  changed_lem :
      (c : Change) (tree : MutableTree) (m : List Entry)
      → IsWorking ndb tree m
      → length m + 1 < two_63
      → (tree' : MutableTree) × (apply c tree ≡ ok tree')
        × IsWorking ndb tree' (changed c m)
        × SameSaved tree tree'
  unfolding apply set_root
  changed_lem (write key value) tree m w fits =
      let (root, q, h) = set-Holds ndb tree m key value w.holds fits in
      (
        set_root (note_addition tree key value) root,
        rw q refl,
        record { holds = h; fast = note_addition-Consistent ndb tree m root key value w.fast },
        note_addition-SameSaved tree root key value,
      )
  changed_lem (erase key) tree m w fits = erased_lem tree m key w

  pub session_lem :
      (cs : List Change) (tree : MutableTree) (m : List Entry)
      → IsWorking ndb tree m
      → length m + length cs < two_63
      → (tree' : MutableTree) × (apply_all cs tree ≡ ok tree')
        × IsWorking ndb tree' (changed_all cs m)
        × SameSaved tree tree'
  unfolding apply_all changed_all
  session_lem [] tree m w fits = (tree, refl, w, SameSaved-refl tree)
  session_lem (c ∷ cs) tree m w fits =
      let (tree1, q, w1, s1) = changed_lem c tree m w (omega arith) in
      let (tree2, rest, w2, s2) =
        session_lem cs tree1 (changed c m) w1 (omega (arith, length-changed c m)) in
      (tree2, rw q rest, w2, SameSaved-trans tree tree1 tree2 s1 s2)

  -- A session of sets and removals never fails on a working tree that keeps the invariant, if all
  -- the entries that it can add fit an `int64`. The new tree keeps the invariant, with the entries
  -- that the session leaves, and there `Get` finds for each key the value of those entries.
  pub apply_all-IsWorking :
      (cs : List Change) (tree : MutableTree) (m : List Entry)
      → IsWorking ndb tree m
      → length m + length cs < two_63
      → (tree' : MutableTree) × (apply_all cs tree ≡ ok tree')
        × IsWorking ndb tree' (changed_all cs m)
        × ((key : Bytes) → mutable_get ndb tree' key ≡ ok (find key (changed_all cs m)))
  apply_all-IsWorking cs tree m w fits =
      let (tree', q, w', s) = session_lem cs tree m w fits in
      (
        tree',
        q,
        w',
        λ key. mutable_get-Consistent ndb tree' (changed_all cs m) key w'.holds w'.fast,
      )
