-- ===== src/MutableTree/Rollback.antt =====
-- mutable_tree.go: `Rollback`, after a session of changes on a saved tree.
use iavl.Prelude.{
  ◌+◌, ◌<◌, ◌≡◌, refl, sym, ap, subst, ◌∙◌, List, [], Bool, true, false, not, if◌then◌else◌, length,
  ok, arith, Bool-cases, inl, inr,
}
use iavl.Prelude.Words.{two_63, lt_int64}
use iavl.Bytes.{Bytes}
use iavl.Bytes.Map.{load}
use iavl.Avl.{Entry}
use iavl.Avl.Sorted.{find}
use iavl.Node.{NodeDb, nil}
use iavl.ImmutableTree.{ImmutableTree}
use iavl.MutableTree.{MutableTree, mutable_get, saved_tree, rollback}
use iavl.MutableTree.FastStorage.{overlay, mutable_get-Consistent}
use iavl.MutableTree.Session.{Change, IsWorking, SameSaved, apply_all, session_lem}

-- A working tree right after a save, or one that was never saved and is empty.
pub data IsFresh (tree : MutableTree) : Type 0 where
  just_saved :
      0 < tree.immutable.version
      → tree.immutable.version < two_63
      → tree.last_saved ≡ tree.immutable
      → IsFresh tree
  never_saved : tree.immutable.version ≡ 0 → tree.immutable.root ≡ nil → IsFresh tree

-- It has no unsaved fast nodes where it keeps them.
abbrev pub HasNoUnsaved : MutableTree → Type 0
HasNoUnsaved tree =
    tree.skip_fast_storage_upgrade ≡ false
    → (tree.unsaved_fast_node_additions ≡ []) × (tree.unsaved_fast_node_removals ≡ [])

saved_tree-positive :
    (tree : MutableTree)
    → 0 < tree.immutable.version
    → tree.immutable.version < two_63
    → saved_tree tree ≡ tree.last_saved
unfolding saved_tree
saved_tree-positive tree h k =
    let positive : lt_int64 0 tree.immutable.version ≡ true = ground arith in
    ap
      (λ b. if b then tree.last_saved else record {
        root = nil;
        version = 0;
        skip_fast_storage_upgrade = tree.skip_fast_storage_upgrade;
      })
      positive

saved_tree-zero :
    (tree : MutableTree)
    → tree.immutable.version ≡ 0
    → saved_tree tree ≡ record {
      root = nil;
      version = 0;
      skip_fast_storage_upgrade = tree.skip_fast_storage_upgrade;
    }
unfolding saved_tree
saved_tree-zero tree h =
    let zero_version : lt_int64 0 tree.immutable.version ≡ false = ground arith in
    ap
      (λ b. if b then tree.last_saved else record {
        root = nil;
        version = 0;
        skip_fast_storage_upgrade = tree.skip_fast_storage_upgrade;
      })
      zero_version

-- An immutable tree by its three fields.
immutable_eq :
    (t : ImmutableTree) (mode : Bool)
    → t.root ≡ nil
    → t.version ≡ 0
    → t.skip_fast_storage_upgrade ≡ mode
    → t ≡ record { root = nil; version = 0; skip_fast_storage_upgrade = mode }
immutable_eq t mode r v m =
    λ i. record { root = r i; version = v i; skip_fast_storage_upgrade = m i }

-- What `Rollback` goes back to after changes of a fresh tree.
back_to_fresh :
    (tree after : MutableTree)
    → IsFresh tree
    → tree.immutable.skip_fast_storage_upgrade ≡ tree.skip_fast_storage_upgrade
    → SameSaved tree after
    → saved_tree after ≡ tree.immutable
back_to_fresh tree after (just_saved p fits e) mode s =
    saved_tree-positive after (subst (λ v. 0 < v) (sym s.version) p)
      (subst (λ v. v < two_63) (sym s.version) fits)
    ∙ s.last_saved
    ∙ e
back_to_fresh tree after (never_saved z r) mode s =
    saved_tree-zero after (s.version ∙ z)
    ∙ sym (immutable_eq tree.immutable after.skip_fast_storage_upgrade r z (mode ∙ sym s.mode))

module _ (ndb : NodeDb) where
  rolled_back :
      (tree after : MutableTree) (m : List Entry)
      → IsWorking ndb tree m
      → HasNoUnsaved tree
      → SameSaved tree after
      → saved_tree after ≡ tree.immutable
      → ((rollback after).immutable ≡ tree.immutable) × IsWorking ndb (rollback after) m
  unfolding rollback load
  rolled_back tree after m w unsaved s back =
      let goal : Bool → ImmutableTree → Type 0 = λ b t.
        let reset : MutableTree =
          if not b
          then record after {
            immutable = t;
            unsaved_fast_node_additions = [];
            unsaved_fast_node_removals = [];
          }
          else record after { immutable = t } in
        (reset.immutable ≡ tree.immutable) × IsWorking ndb reset m in
      let mode = w.fast.same_mode ∙ sym s.mode in
      subst (goal after.skip_fast_storage_upgrade) (sym back)
        (elim (Bool-cases after.skip_fast_storage_upgrade) [
          | inl skip ↦
              subst (λ b. goal b tree.immutable) (sym skip)
                (
                  refl,
                  record {
                    holds = w.holds;
                    fast = record {
                      saved = w.fast.saved;
                      same_mode = mode;
                      agrees = w.fast.agrees;
                      live = λ fast. absurd (ground arith);
                    };
                  },
                )
          | inr fast ↦
              subst (λ b. goal b tree.immutable) (sym fast)
                (
                  refl,
                  record {
                    holds = w.holds;
                    fast = record {
                      saved = w.fast.saved;
                      same_mode = mode;
                      agrees = w.fast.agrees;
                      live = λ _. saved_live (sym s.mode ∙ fast);
                    };
                  },
                )
        ])
    where
      saved_live :
          tree.skip_fast_storage_upgrade ≡ false
          → (k : Bytes) → find k m ≡ overlay (load k []) (load k []) (find k w.fast.saved)
      saved_live fast k =
          w.fast.live fast k
          ∙ ap
              (λ a.
                overlay (load k a) (load k tree.unsaved_fast_node_removals) (find k w.fast.saved))
              (unsaved fast).0
          ∙ ap (λ r. overlay (load k []) (load k r) (find k w.fast.saved)) (unsaved fast).1

  -- From a working tree that keeps the invariant, has no unsaved fast nodes where it keeps such, and
  -- is either at a version above 0 and below 2 ^ 63 with its immutable tree as the last saved tree,
  -- or at version 0 without a root: any session of sets and removals whose entries fit an `int64`
  -- returns, and `Rollback` then gives back the immutable tree from before the session, in a working
  -- tree that keeps the invariant with the entries from before, and there `Get` finds for each key
  -- the value of those entries.
  pub rollback-IsWorking :
      (cs : List Change) (tree : MutableTree) (m : List Entry)
      → IsWorking ndb tree m
      → IsFresh tree
      → HasNoUnsaved tree
      → length m + length cs < two_63
      → (after : MutableTree) × (apply_all ndb cs tree ≡ ok after)
        × ((rollback after).immutable ≡ tree.immutable)
        × IsWorking ndb (rollback after) m
        × ((key : Bytes) → mutable_get ndb (rollback after) key ≡ ok (find key m))
  rollback-IsWorking cs tree m w fresh unsaved fits =
      let (after, q, w', s) = session_lem ndb cs tree m w fits in
      let (same, back) =
        rolled_back tree after m w unsaved s (back_to_fresh tree after fresh w.fast.same_mode s) in
      (
        after,
        q,
        same,
        back,
        λ key. mutable_get-Consistent ndb (rollback after) m key back.holds back.fast,
      )
