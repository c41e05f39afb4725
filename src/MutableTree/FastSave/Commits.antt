-- ===== src/MutableTree/FastSave/Commits.antt =====
-- mutable_tree.go: what is read of the fast nodes once `SaveVersion` has written and committed them.
use iavl.Prelude.{
  ℕ, zero, suc, ◌+◌, ◌/◌, ◌%◌, ◌<◌, ◌≡◌, refl, sym, ap, subst, ◌∙◌, List, [], ◌∷◌, ◌++◌, All, Bool,
  true, false, not, Option, none, is_some, if◌then◌else◌, ltb, ◌==◌, ok, ◌>>=◌, arith, Bool-cases,
  inl, inr,
}
use iavl.Prelude.Words.{two_63}
use iavl.Bytes.{Bytes, compare_bytes, lt_bytes}
use iavl.Bytes.Map.{load}
use iavl.FastNode.{FastNode}
use iavl.KeyFormat.{new_key_format, key_bytes}
use iavl.KeyFormat.RoundTrip.{key_bytes-joined}
use iavl.KeyFormat.Join.{joined}
use iavl.MemDb.{BTree}
use iavl.NodeDatabase.{
  NodeDatabase, set_fast_storage_version_to_batch, next_storage_version, split, itoa, digits,
  commit, has_upgraded_to_fast_storage, fast_storage_version_value, metadata_key_format,
  storage_version_key,
}
use iavl.NodeDatabase.Saved.{Saves, set_in_batch-Batched, IsRead}
use iavl.Avl.Sorted.{find}
use iavl.Avl.Entries.{find-put}
use iavl.NodeDatabase.FastReads.{Committed, commit-Committed}
use iavl.MutableTree.FastSave.{sort_strings, keys_of, save_fast_node_version}
use iavl.MutableTree.FastSave.Looks.{
  AllFit, member-sort_strings, member-keys_of, save_additions-Done, save_removals-Done,
  after_additions, after_removals,
}

abbrev NoDash : Bytes → Type 0
NoDash = All (λ c. (c == 45) ≡ false)

digits-NoDash : (fuel n : ℕ) (acc : Bytes) → NoDash acc → NoDash (digits fuel n acc)
unfolding digits
digits-NoDash zero n acc h = h
digits-NoDash (suc fuel) n acc h = elim (Bool-cases (ltb n 10)) [
  | inl c ↦ rw c (ground arith, h)
  | inr c ↦ rw c (digits-NoDash fuel (n / 10) ((48 + n % 10) ∷ acc) (ground arith, h))
]

split-NoDash : (s : Bytes) → NoDash s → split s ≡ s ∷ []
unfolding split
split-NoDash [] h = refl
split-NoDash (c ∷ s) (d, h) = rw (d, split-NoDash s h) refl

itoa-NoDash : (n : ℕ) → n < two_63 → NoDash (itoa n)
unfolding itoa
itoa-NoDash n h =
    let small : ltb n two_63 ≡ true = ground arith in rw small (digits-NoDash 20 n [] tt)

-- the storage version after a save, and that it is one of fast storage with the same front part
next_of_saved :
    (v : ℕ)
    → v < two_63
    → next_storage_version (fast_storage_version_value ++ 45 ∷ itoa v)
      ≡ ok fast_storage_version_value
unfolding next_storage_version split compare_bytes
next_of_saved v h = rw (split-NoDash (itoa v) (itoa-NoDash v h)) refl

upgraded_of_saved :
    (d : Bytes) → lt_bytes (fast_storage_version_value ++ 45 ∷ d) fast_storage_version_value ≡ false
unfolding compare_bytes
upgraded_of_saved d = refl

metadata_key_format-made : new_key_format 109 (0 ∷ []) ≡ ok metadata_key_format
unfolding new_key_format
metadata_key_format-made = refl

metadata_key :
    key_bytes metadata_key_format (storage_version_key ∷ []) ≡ ok (109 ∷ storage_version_key)
unfolding joined
metadata_key =
    key_bytes-joined 109 (0 ∷ []) metadata_key_format (storage_version_key ∷ [])
      metadata_key_format-made (refl, tt)

module _ (B : BTree) where
  open B use {Items}

  -- what is stored under another prefix than that of the fast nodes
  other_prefix :
      (db : Items) (j v k : Bytes)
      → B.get_item (B.replace_or_insert db (109 ∷ j) v) (102 ∷ k) ≡ B.get_item db (102 ∷ k)
  unfolding compare_bytes
  other_prefix db j v k =
      B.get_item-ascend (B.replace_or_insert db (109 ∷ j) v) (102 ∷ k)
      ∙ ap (find (102 ∷ k)) (B.ascend-replace_or_insert db (109 ∷ j) v)
      ∙ find-put (102 ∷ k) (109 ∷ j) v (B.ascend db)
      ∙ sym (B.get_item-ascend db (102 ∷ k))

  -- The storage version is written beside the fast nodes.
  set_version-Saves :
      (ndb : NodeDatabase B) (db : Items) (look : Bytes → Option FastNode) (version : ℕ)
      → next_storage_version ndb.storage_version ≡ ok fast_storage_version_value
      → Saves B ndb db look
      → (after : NodeDatabase B) × (db' : Items) × (set_fast_storage_version_to_batch B ndb version
          ≡ ok after)
        × Saves B after db' look
        × (after.storage_version ≡ fast_storage_version_value ++ 45 ∷ itoa version)
  unfolding set_fast_storage_version_to_batch
  set_version-Saves ndb db look version e h =
      let new_version = fast_storage_version_value ++ 45 ∷ itoa version in
      let b =
        set_in_batch-Batched B ndb db (109 ∷ storage_version_key) new_version (ground arith)
          h.opened in
      (
        record ndb { batch = b.after; storage_version = new_version },
        B.replace_or_insert db (109 ∷ storage_version_key) new_version,
        rw (e, metadata_key, b.returned) refl,
        record {
          opened = b.opened;
          stored = λ k.
              subst (λ o. IsRead k o (look k))
                (sym (other_prefix db storage_version_key new_version k)) (h.stored k);
          cache = h.cache;
          cached = h.cached;
        },
        refl,
      )

  -- what is found after a save
  abbrev pub after_save :
      List (Bytes × FastNode)
      → List (Bytes × Bool)
      → (Bytes → Option FastNode)
      → Bytes
      → Option FastNode
  after_save additions removals look k =
      if is_some (load k removals)
      then none
      else (if is_some (load k additions) then load k additions else look k)

  look_same :
      (additions : List (Bytes × FastNode)) (removals : List (Bytes × Bool))
      (look : Bytes → Option FastNode) (k : Bytes)
      → after_removals
          (sort_strings (keys_of removals))
          (after_additions additions (sort_strings (keys_of additions)) look)
          k
        ≡ after_save additions removals look k
  look_same additions removals look k =
      rw
        (
          member-sort_strings k (keys_of removals),
          member-keys_of k removals,
          member-sort_strings k (keys_of additions),
          member-keys_of k additions,
        )
        refl

  upgraded :
      (ndb : NodeDatabase B) (version : ℕ)
      → ndb.storage_version ≡ fast_storage_version_value ++ 45 ∷ itoa version
      → has_upgraded_to_fast_storage B ndb ≡ true
  unfolding has_upgraded_to_fast_storage
  upgraded ndb version e =
      subst (λ s. not (lt_bytes s fast_storage_version_value) ≡ true) (sym e)
        (ap not (upgraded_of_saved (itoa version)))

  -- From a database with nothing pending, whose storage version is that of fast storage or leads to
  -- it, and with additions that fit and have the keys of their nodes: the unsaved fast nodes are
  -- written and committed without an error, and from then on a fast node that was removed is not
  -- found, one that was added is found as it was added, and all others are found as before; and
  -- the storage version is again as was required.
  pub save_fast_node_version-Committed :
      (ndb : NodeDatabase B) (look : Bytes → Option FastNode) (additions : List (Bytes × FastNode))
      (removals : List (Bytes × Bool)) (version : ℕ)
      → version < two_63
      → AllFit additions
      → next_storage_version ndb.storage_version ≡ ok fast_storage_version_value
      → Saves B ndb ndb.batch.db look
      → (after : NodeDatabase B) × ((save_fast_node_version B ndb additions removals version
            >>= commit B)
          ≡ ok after)
        × Committed B after (after_save additions removals look)
        × (next_storage_version after.storage_version ≡ ok fast_storage_version_value)
  unfolding save_fast_node_version
  save_fast_node_version-Committed ndb look additions removals version v fit e h =
      let ks = sort_strings (keys_of additions) in
      let rs = sort_strings (keys_of removals) in
      let a =
        save_additions-Done B ndb ndb.batch.db look additions ks fit
          (λ k q.
            sym (member-keys_of k additions) ∙ sym (member-sort_strings k (keys_of additions)) ∙ q)
          h in
      let r =
        save_removals-Done B a.saved.after a.db (after_additions additions ks look) rs
          a.saved.saves in
      let e' : next_storage_version r.saved.after.storage_version ≡ ok fast_storage_version_value =
        subst (λ s. next_storage_version s ≡ ok fast_storage_version_value)
          (sym (r.saved.same_version ∙ a.saved.same_version)) e in
      let (n, db, set, saves, ver) =
        set_version-Saves r.saved.after r.db _ version e' r.saved.saves in
      let (after, committed, well, same) =
        commit-Committed B n db _ saves (upgraded n version ver) in
      let looks : after_removals rs (after_additions additions ks look)
          ≡ after_save additions removals look =
        λ i k. look_same additions removals look k i in
      (
        after,
        rw (a.saved.returned, r.saved.returned, set) committed,
        subst (Committed B after) looks well,
        subst (λ s. next_storage_version s ≡ ok fast_storage_version_value) (sym (same ∙ ver))
            (next_of_saved version v),
      )
