-- ===== src/Iterator.antt =====
-- iterator.go: `Iterator`, over the leaves of an immutable tree, which is not nil. `Next` calls
-- itself past each inner node, on fuel; `limit` is the fuel of one step of the traversal.
use iavl.Prelude.{
  ℕ, zero, suc, Bool, true, false, Option, none, some, ◌==◌, if◌then◌else◌, Result, ok, err, panic,
  stuck, Error,
}
use iavl.Bytes.{Bytes}
use iavl.Node.{Node, nil, node, NodeDb}
use iavl.ImmutableTree.{ImmutableTree}
use iavl.Traversal.{Traversal, new_traversal}
use iavl.Traversal

pub record Iterator : Type 0 where
  pub start : Option Bytes
  pub end : Option Bytes
  pub key : Option Bytes
  pub value : Option Bytes
  pub valid : Bool
  pub failure : Option Error
  pub t : Option Traversal

-- The end of an iteration, after an error too.
unfoldable pub ended : Iterator → Iterator
ended iter = record iter { t = none; valid = false }

-- What `Next` does with the outcome of the traversal; `rest` goes on.
unfoldable pub moved :
    Iterator → (Traversal → Result Iterator) → Result (Node × Traversal) → Result Iterator
unfolding ended
moved iter rest (ok (nil, t)) = ok (ended iter)
moved iter rest (ok (node f a b, t)) =
    if f.subtree_height == 0
    then ok (record iter { t = some t; key = some f.key; value = f.value })
    else rest t
moved iter rest (err e) = ok (ended iter)
moved iter rest panic = panic
moved iter rest stuck = stuck

unfoldable pub close : Iterator → Iterator
close iter = record iter { t = none; valid = false }

module _ (ndb : NodeDb) where
  unfoldable pub next : (limit fuel : ℕ) → Iterator → Result Iterator
  unfolding moved
  next limit zero iter = stuck
  next limit (suc fuel) iter = elim (iter.t) [
    | none ↦ ok iter
    | some t ↦
        moved iter (λ t. next limit fuel (record iter { t = some t })) (Traversal.next ndb limit t)
  ]

  unfoldable pub new_iterator :
      (limit fuel : ℕ) → Option Bytes → Option Bytes → Bool → ImmutableTree → Result Iterator
  unfolding next new_traversal
  new_iterator limit fuel start end ascending tree = next limit fuel (record {
    start = start;
    end = end;
    key = none;
    value = none;
    valid = true;
    failure = none;
    t = some (new_traversal tree.root start end ascending false false);
  })
