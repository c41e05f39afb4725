-- ===== src/UnsavedFastIterator/Collected.antt =====
-- unsaved_fast_iterator.go: a whole iteration over the fast nodes of the working tree.
use iavl.Prelude.{
  ℕ, zero, suc, ◌+◌, ◌<◌, ◌≤◌, ◌≡◌, refl, sym, ap, subst, ◌∙◌, List, [], ◌∷◌, Bool, true, false,
  ◌||◌, Option, none, some, is_some, if◌then◌else◌, length, Result, ok, err, panic, stuck, ◌>>=◌,
  arith, Bool-cases, inl, inr,
}
use iavl.Bytes.{Bytes}
use iavl.Bytes.Map.{load}
use iavl.FastNode.{FastNode}
use iavl.Avl.{Entry}
use iavl.Avl.Sorted.{find}
use iavl.Avl.Entries.{IsSorted}
use iavl.Traversal.Ranges.{select, in_direction, inside}
use iavl.Directions.{InOrder, InOrder-ext}
use iavl.MemDb.{BTree}
use iavl.NodeDatabase.{NodeDatabase}
use iavl.FastIterator.{is_valid}
use iavl.FastIterator.Reads.{HasFast, within, directed, new_fast_iterator-OnDisk}
use iavl.UnsavedFastIterator.{
  UnsavedFastIterator, valid, is_empty_range, has_unsaved, next, new_unsaved_fast_iterator,
  sort_slice, keys_in_range,
}
use iavl.UnsavedFastIterator.Merges.{Merges, merged}
use iavl.UnsavedFastIterator.Steps.{
  entry_of, entries, drop-end, state, IsMerge, Outcome, finished, found, next-Outcome,
}
use iavl.UnsavedFastIterator.Additions.{
  IsKeyed, nodes_in_range, keys_in_range-nodes, value_of, load-nodes_in_range,
  nodes_in_range-loaded, nodes_in_range-Once,
}
use iavl.UnsavedFastIterator.Sorting.{
  sort_nodes, node_keys-sort_nodes, All-sort_nodes, load-sort_nodes, sort_nodes-InOrder,
  length-sort_nodes,
}
use iavl.MutableTree.FastStorage.{overlay}
use iavl.UnsavedFastIterator.Ranges.{
  in_range, in_range-InOrder, load-in_range, HasFast-IsSorted, length-within, length-directed,
  length-nodes_in_range, merged-overlay, merged-none, entries-directed-within, outside,
}

-- what a caller reads by `Key` and `Value`
unfoldable pub current : UnsavedFastIterator → Result Entry
current iter = elim iter.next_key [
  | none ↦ panic
  | some k ↦ elim iter.next_val [ none ↦ panic | some v ↦ ok (k, v) ]
]

-- `for ; itr.Valid(); itr.Next() { … itr.Key(), itr.Value() … }`, on fuel
unfoldable pub collect :
    (B : BTree) → ℕ → ℕ → NodeDatabase B → UnsavedFastIterator → Result (List Entry)
unfolding current
collect B steps zero ndb iter = stuck
collect B steps (suc fuel) ndb iter = elim (valid iter) [
  | false ↦ ok []
  | true ↦ do
    e ← current iter
    iter ← next B steps ndb iter
    rest ← collect B steps fuel ndb iter
    ok (e ∷ rest)
]

or_true : (a b : Bool) → (a || b || true) ≡ true
or_true true b = refl
or_true false true = refl
or_true false false = refl

>>=-assoc {ℓ} :
    {A B C : Type ℓ} (r : Result A) (f : A → Result B) (g : B → Result C)
    → (r >>= λ a. f a >>= g) ≡ ((r >>= f) >>= g)
>>=-assoc (ok a) f g = refl
>>=-assoc (err e) f g = refl
>>=-assoc panic f g = refl
>>=-assoc stuck f g = refl

module _ (B : BTree) (ndb : NodeDatabase B) (start end : Option Bytes) (ascending : Bool)
    (additions : List (Bytes × FastNode)) (removals : List (Bytes × Bool)) (keys : List Bytes) where
  collect_from :
      (steps fuel : ℕ) (r : Result UnsavedFastIterator) (d u : List FastNode)
      → is_empty_range start end ≡ false
      → length d < steps
      → length d + length u < fuel
      → Outcome B ndb start end ascending additions removals keys r d u
      → (out : List Entry) × ((r >>= collect B steps fuel ndb) ≡ ok out)
        × IsMerge B ndb start end ascending additions removals keys d u out
  unfolding collect valid
  collect_from steps zero r d u e s f o = absurd (omega arith)
  collect_from steps (suc fuel) r d u e s f (finished g idx q left m) =
      ([], rw (q, e, left.disk.0, drop-end idx keys left.left) refl, m)
  collect_from steps (suc fuel) r d u e s f (found g idx n d' u' q left a b m) =
      let there =
        state B ndb start end ascending additions removals keys g idx (some n.key) (some n.value) in
      let o =
        next-Outcome B ndb start end ascending additions removals keys steps g idx (some n.key)
          (some n.value) d' u' (omega arith) left in
      let (out, c, p) =
        collect_from steps fuel (next B steps ndb there) d' u' e (omega arith) (omega arith) o in
      (
        entry_of n ∷ out,
        rw (q, e, or_true (is_valid g) (has_unsaved there))
            (>>=-assoc (next B steps ndb there) (collect B steps fuel ndb)
                (λ rest. ok (entry_of n ∷ rest))
              ∙ ap (λ o. ◌>>=◌ {B = List Entry} o (λ rest. ok (entry_of n ∷ rest))) c),
        m out p,
      )

module _ (B : BTree) (ndb : NodeDatabase B) (additions : List (Bytes × FastNode))
    (removals : List (Bytes × Bool)) where
  merge_eq :
      (start end : Option Bytes) (ascending : Bool) (fast : List FastNode) (m out : List Entry)
      → HasFast B ndb fast
      → IsKeyed additions
      → IsSorted m
      → ((k : Bytes)
          → find k m ≡ overlay (load k additions) (load k removals) (find k (entries fast)))
      → Merges ascending
          (λ k. is_some (load k removals))
          (entries (directed ascending (within start end fast)))
          (entries (sort_nodes ascending (nodes_in_range start end additions)))
          out
      → out ≡ in_range start end ascending m
  merge_eq start end ascending fast m out h keyed sorted live merge =
      InOrder-ext ascending out (in_range start end ascending m) merge.in_order
        (in_range-InOrder start end ascending m sorted) at
    where
      saved_at :
          (k : Bytes)
          → load k (entries (directed ascending (within start end fast)))
            ≡ (if inside start end false k then find k (entries fast) else none)
      saved_at k =
          ap (load k) (entries-directed-within start end ascending fast)
          ∙ load-in_range start end ascending (entries fast) k (HasFast-IsSorted B ndb fast h)

      unsaved_at :
          (k : Bytes)
          → load k (entries (sort_nodes ascending (nodes_in_range start end additions)))
            ≡ (if inside start end false k then value_of (load k additions) else none)
      unsaved_at k =
          load-sort_nodes ascending (nodes_in_range start end additions) k
            (nodes_in_range-Once start end additions keyed)
          ∙ load-nodes_in_range start end additions k keyed

      by_test :
          (k : Bytes) (b : Bool)
          → merged
              (if b then value_of (load k additions) else none)
              (is_some (load k removals))
              (if b then find k (entries fast) else none)
            ≡ (if b then find k m else none)
      by_test k true =
          merged-overlay (load k additions) (load k removals) (find k (entries fast)) ∙ sym (live k)
      by_test k false = merged-none (is_some (load k removals))

      at : (k : Bytes) → load k out ≡ load k (in_range start end ascending m)
      at k =
          merge.at k
          ∙ ap
              (λ o.
                merged o (is_some (load k removals))
                  (load k (entries (directed ascending (within start end fast)))))
              (unsaved_at k)
          ∙ ap
              (merged (if inside start end false k then value_of (load k additions) else none)
                (is_some (load k removals)))
              (saved_at k)
          ∙ by_test k (inside start end false k)
          ∙ sym (load-in_range start end ascending m k sorted)

  empty_eq :
      (start end : Option Bytes) (ascending : Bool) (m : List Entry)
      → is_empty_range start end ≡ true
      → in_range start end ascending m ≡ []
  empty_eq start end ascending m e =
      ap (in_direction ascending) (none_inside m) ∙ no_entries ascending
    where
      none_inside : (m : List Entry) → select (λ e. inside start end false e.0) m ≡ []
      none_inside [] = refl
      none_inside (x ∷ m) = rw (outside start end x.0 e) (none_inside m)

      no_entries : (b : Bool) → in_direction {A = Entry} b [] ≡ []
      no_entries true = refl
      no_entries false = refl

  empty_collected :
      (start end : Option Bytes) (ascending : Bool) (keys : List Bytes) (steps fuel : ℕ)
      (r : Result UnsavedFastIterator) (d u : List FastNode)
      → is_empty_range start end ≡ true
      → Outcome B ndb start end ascending additions removals keys r d u
      → (r >>= collect B steps (suc fuel) ndb) ≡ ok []
  unfolding collect valid
  empty_collected start end ascending keys steps fuel r d u e (finished g idx q left m) =
      rw (q, e) refl
  empty_collected start end ascending keys steps fuel r d u e (found g idx n d' u' q left a b m) =
      rw (q, e) refl

  new_unsaved_fast_iterator-Outcome :
      (start end : Option Bytes) (ascending : Bool) (fast : List FastNode) (fuel : ℕ)
      → HasFast B ndb fast
      → IsKeyed additions
      → length fast < fuel
      → Outcome B ndb start end ascending additions removals
          (sort_slice ascending (keys_in_range start end additions))
          (new_unsaved_fast_iterator B fuel ndb start end ascending additions removals)
          (directed ascending (within start end fast))
          (sort_nodes ascending (nodes_in_range start end additions))
  unfolding new_unsaved_fast_iterator
  new_unsaved_fast_iterator-Outcome start end ascending fast fuel h keyed fits =
      let unsaved = nodes_in_range start end additions in
      let once = nodes_in_range-Once start end additions keyed in
      let saved = directed ascending (within start end fast) in
      let (f, made, disk) = new_fast_iterator-OnDisk B ndb start end ascending fast h in
      let few : length saved < fuel =
        omega (
          arith,
          length-directed ascending (within start end fast),
          length-within start end fast,
        ) in
      rw made (
        next-Outcome B ndb start end ascending additions removals _ fuel f 0 none none saved
          (sort_nodes ascending unsaved) few
          (record {
            disk = disk;
            left =
                ap (sort_slice ascending) (keys_in_range-nodes start end additions keyed)
                ∙ node_keys-sort_nodes ascending unsaved;
            loaded =
                All-sort_nodes _ ascending unsaved
                  (nodes_in_range-loaded start end additions keyed);
            disk_order =
                subst (InOrder ascending) (sym (entries-directed-within start end ascending fast)) (
                  in_range-InOrder start end ascending (entries fast)
                    (HasFast-IsSorted B ndb fast h));
            unsaved_order = sort_nodes-InOrder ascending unsaved once;
          }))

  -- On a database with the fast nodes of a saved tree, and with unsaved additions that have each key
  -- once: if the additions and the removals, laid over the saved fast nodes, say of each key what
  -- the sorted entries of the working tree say, then a loop over a new iterator, with more fuel than
  -- there are saved and added fast nodes, ends and reads the entries of the working tree in the
  -- range, in the direction of the iterator, each one once and no others.
  pub collect-in_range :
      (start end : Option Bytes) (ascending : Bool) (fast : List FastNode) (m : List Entry)
      (fuel : ℕ)
      → HasFast B ndb fast
      → IsKeyed additions
      → IsSorted m
      → ((k : Bytes)
          → find k m ≡ overlay (load k additions) (load k removals) (find k (entries fast)))
      → length fast + length additions < fuel
      → (new_unsaved_fast_iterator B fuel ndb start end ascending additions removals
          >>= collect B fuel fuel ndb)
        ≡ ok (in_range start end ascending m)
  collect-in_range start end ascending fast m zero h keyed sorted live fits = absurd (omega arith)
  collect-in_range start end ascending fast m (suc fuel) h keyed sorted live fits =
      let unsaved = nodes_in_range start end additions in
      let saved = directed ascending (within start end fast) in
      let keys = sort_slice ascending (keys_in_range start end additions) in
      let o =
        new_unsaved_fast_iterator-Outcome start end ascending fast (suc fuel) h keyed
          (omega arith) in
      let few : length saved ≤ length fast =
        omega (
          arith,
          length-directed ascending (within start end fast),
          length-within start end fast,
        ) in
      let fewer : length (sort_nodes ascending unsaved) ≤ length additions =
        omega
          (arith, length-sort_nodes ascending unsaved, length-nodes_in_range start end additions) in
      elim (Bool-cases (is_empty_range start end)) [
        | inl e ↦
            empty_collected start end ascending keys (suc fuel) fuel _ saved _ e o
            ∙ ap ok (sym (empty_eq start end ascending m e))
        | inr e ↦
            let (out, c, merge) =
              collect_from B ndb start end ascending additions removals keys (suc fuel) (suc fuel) _
                saved _ e (omega arith) (omega arith) o in
            c ∙ ap ok (merge_eq start end ascending fast m out h keyed sorted live merge)
      ]
