-- ===== src/NodeDatabase/Saved.antt =====
-- nodedb.go: the fast nodes that the database, its pending changes and its cache hold.
use iavl.Prelude.{
  ◌⊎◌, ◌<◌, ◌≡◌, refl, sym, ap, subst, ◌∙◌, [], ◌∷◌, ◌++◌, Bool, true, false, Option, none, some,
  if◌then◌else◌, length, Result, ok, arith, ◌==◌, append-nil, inl, inr,
}
use iavl.Prelude.Words.{two_63, two_64}
use iavl.Bytes.{Bytes, equal_bytes, compare_bytes}
use iavl.FastNode.{FastNode, deserialize_node, write_bytes}
use iavl.FastNode.RoundTrip.{deserialize_node-write_bytes}
use iavl.Avl.Sorted.{find}
use iavl.Avl.Entries.{find-put, find-delete}
use iavl.KeyFormat.{new_key_format}
use iavl.KeyFormat.RoundTrip.{key_bytes-joined}
use iavl.KeyFormat.Join.{joined}
use iavl.Cache.Recency
use iavl.Cache.Recency.{nodes, eq_of_equal, equal_refl, equal_sym}
use iavl.Cache.Methods.{IsCache, add-Leaves, remove_key-Leaves}
use iavl.Cache.Held.{added-found, removed-found}
use iavl.MemDb.{BTree, BatchWithFlusher, op_set, op_delete, apply_op}
use iavl.MemDb.Flushing.{IsOpen, change, change-Changed}
use iavl.NodeDatabase.{
  NodeDatabase, fast_key_format, fast_node_key, set_in_batch, delete_in_batch,
  save_fast_node_unlocked, delete_fast_node,
}

pub fast_key_format-made : new_key_format 102 (0 ∷ []) ≡ ok fast_key_format
unfolding new_key_format
fast_key_format-made = refl

pub fast_node_key_lem : (k : Bytes) → fast_node_key k ≡ ok (102 ∷ k)
unfolding fast_node_key joined
fast_node_key_lem k =
    key_bytes-joined 102 (0 ∷ []) fast_key_format (k ∷ []) fast_key_format-made (refl, tt)
    ∙ ap (λ b. ok (102 ∷ b)) (append-nil k)

abbrev pub key_of : FastNode → Bytes
key_of n = n.key

-- the fast nodes with one more, and with one less
abbrev pub with_node : (Bytes → Option FastNode) → FastNode → Bytes → Option FastNode
with_node look n k = if equal_bytes k n.key then some n else look k

abbrev pub without_key : (Bytes → Option FastNode) → Bytes → Bytes → Option FastNode
without_key look j k = if equal_bytes k j then none else look k

-- a fast node whose version and whose bytes fit
pub record Fits (n : FastNode) : Type 0 where
  pub version : n.version_last_updated_at < two_64
  pub size : length (write_bytes true n []) < two_63

-- what is read from the bytes of a fast node, if there are any
abbrev pub IsRead : Bytes → Option Bytes → Option FastNode → Type 0
IsRead k buf none = buf ≡ none
IsRead k buf (some n) = (bz : Bytes) × (buf ≡ some bz) × (deserialize_node k bz ≡ ok n)

-- A fast node that fits is read back from its bytes.
pub read_written : (n : FastNode) → Fits n → deserialize_node n.key (write_bytes true n []) ≡ ok n
read_written n fits =
    let w = write_bytes true n [] in
    let same : w ++ [] ≡ w = append-nil w in
    ap (deserialize_node n.key) (sym same)
    ∙ deserialize_node-write_bytes true n [] fits.version
        (subst (λ l. length l < two_63) (sym same) fits.size)

IsRead-written :
    (n : FastNode) (k : Bytes)
    → Fits n
    → k ≡ n.key
    → IsRead k (some (write_bytes true n [])) (some n)
IsRead-written n k fits e =
    let w = write_bytes true n [] in
    (w, refl, ap (λ j. deserialize_node j w) e ∙ read_written n fits)

pub with_node-found :
    (look : Bytes → Option FastNode) (n : FastNode) (k : Bytes) (m : FastNode) {P : Type 0}
    → ((equal_bytes n.key k ≡ true) × (n ≡ m)) ⊎ ((equal_bytes n.key k ≡ false) × P)
    → (P → look k ≡ some m)
    → with_node look n k ≡ some m
with_node-found look n k m (inl (c, e)) known = rw (equal_sym k n.key, c) (ap some e)
with_node-found look n k m (inr (c, p)) known = rw (equal_sym k n.key, c) (known p)

module _ (B : BTree) where
  open B use {Items}

  -- what the database has at the key of a fast node
  abbrev pub IsAt : Items → Bytes → Option FastNode → Type 0
  IsAt db k n = IsRead k (B.get_item db (102 ∷ k)) n

  -- The fast nodes that are found once the pending changes are written. The cache knows no others.
  pub record Saves (ndb : NodeDatabase B) (db : Items) (look : Bytes → Option FastNode)
      : Type 0 where
    pub opened : IsOpen B ndb.batch db
    pub stored : (k : Bytes) → IsAt db k (look k)
    pub cache : IsCache key_of ndb.fast_node_cache
    pub cached :
        (k : Bytes) (n : FastNode)
        → Recency.find key_of k (nodes key_of ndb.fast_node_cache.ll) ≡ some n
        → look k ≡ some n

  get_item-replaced :
      (db : Items) (j k v : Bytes)
      → B.get_item (B.replace_or_insert db (102 ∷ j) v) (102 ∷ k)
        ≡ (if equal_bytes k j then some v else B.get_item db (102 ∷ k))
  unfolding compare_bytes
  get_item-replaced db j k v =
      B.get_item-ascend (B.replace_or_insert db (102 ∷ j) v) (102 ∷ k)
      ∙ ap (find (102 ∷ k)) (B.ascend-replace_or_insert db (102 ∷ j) v)
      ∙ find-put (102 ∷ k) (102 ∷ j) v (B.ascend db)
      ∙ ap (λ o. if equal_bytes k j then some v else o) (sym (B.get_item-ascend db (102 ∷ k)))

  get_item-deleted :
      (db : Items) (j k : Bytes)
      → B.get_item (B.delete_item db (102 ∷ j)) (102 ∷ k)
        ≡ (if equal_bytes k j then none else B.get_item db (102 ∷ k))
  unfolding compare_bytes
  get_item-deleted db j k =
      B.get_item-ascend (B.delete_item db (102 ∷ j)) (102 ∷ k)
      ∙ ap (find (102 ∷ k)) (B.ascend-delete_item db (102 ∷ j))
      ∙ find-delete (102 ∷ k) (102 ∷ j) (B.ascend db) (B.ascend-IsSorted db)
      ∙ ap (λ o. if equal_bytes k j then none else o) (sym (B.get_item-ascend db (102 ∷ k)))

  -- A change through the batch touches nothing else.
  pub record Batched (ndb : NodeDatabase B) (r : Result (NodeDatabase B)) (db : Items)
      : Type 0 where
    pub after : BatchWithFlusher B
    pub returned : r ≡ ok (record ndb { batch = after })
    pub opened : IsOpen B after db

  pub set_in_batch-Batched :
      (ndb : NodeDatabase B) (db : Items) (key value : Bytes)
      → (length key == 0) ≡ false
      → IsOpen B ndb.batch db
      → Batched ndb (set_in_batch B ndb key value) (B.replace_or_insert db key value)
  unfolding set_in_batch change apply_op
  set_in_batch-Batched ndb db key value k h =
      let c = change-Changed B ndb.batch db (op_set key value) k h in
      record { after = c.after; returned = rw c.returned refl; opened = c.well }

  pub delete_in_batch-Batched :
      (ndb : NodeDatabase B) (db : Items) (key : Bytes)
      → (length key == 0) ≡ false
      → IsOpen B ndb.batch db
      → Batched ndb (delete_in_batch B ndb key) (B.delete_item db key)
  unfolding delete_in_batch change apply_op
  delete_in_batch-Batched ndb db key k h =
      let c = change-Changed B ndb.batch db (op_delete key) k h in
      record { after = c.after; returned = rw c.returned refl; opened = c.well }

  pub IsAt-with_node :
      (db : Items) (look : Bytes → Option FastNode) (n : FastNode) (k : Bytes)
      → Fits n
      → IsAt db k (look k)
      → IsAt (B.replace_or_insert db (102 ∷ n.key) (write_bytes true n [])) k (with_node look n k)
  IsAt-with_node db look n k fits h =
      subst (λ o. IsRead k o (with_node look n k))
        (sym (get_item-replaced db n.key k (write_bytes true n [])))
        (by_key (equal_bytes k n.key) (eq_of_equal k n.key))
    where
      by_key :
          (b : Bool)
          → (b ≡ true → k ≡ n.key)
          → IsRead k
              (if b then some (write_bytes true n []) else B.get_item db (102 ∷ k))
              (if b then some n else look k)
      by_key true e = IsRead-written n k fits (e refl)
      by_key false e = h

  pub IsAt-without_key :
      (db : Items) (look : Bytes → Option FastNode) (j k : Bytes)
      → IsAt db k (look k)
      → IsAt (B.delete_item db (102 ∷ j)) k (without_key look j k)
  IsAt-without_key db look j k h =
      subst (λ o. IsRead k o (without_key look j k)) (sym (get_item-deleted db j k))
        (by_key (equal_bytes k j))
    where
      by_key :
          (b : Bool)
          → IsRead k (if b then none else B.get_item db (102 ∷ k)) (if b then none else look k)
      by_key true = refl
      by_key false = h

  -- The outcome of a change of the fast nodes.
  pub record Saved (ndb : NodeDatabase B) (r : Result (NodeDatabase B)) (db : Items)
      (look : Bytes → Option FastNode) : Type 0 where
    pub after : NodeDatabase B
    pub returned : r ≡ ok after
    pub saves : Saves after db look
    pub same_version : after.storage_version ≡ ndb.storage_version

  -- The new fast node is found, whether it is in the cache or not.
  pub save_fast_node_unlocked-Saved :
      (ndb : NodeDatabase B) (db : Items) (look : Bytes → Option FastNode) (n : FastNode)
      → Fits n
      → Saves ndb db look
      → Saved ndb
          (save_fast_node_unlocked B ndb n true)
          (B.replace_or_insert db (102 ∷ n.key) (write_bytes true n []))
          (with_node look n)
  unfolding save_fast_node_unlocked
  save_fast_node_unlocked-Saved ndb db look n fits h =
      let b =
        set_in_batch-Batched ndb db (102 ∷ n.key) (write_bytes true n []) (ground arith) h.opened in
      let c = add-Leaves key_of ndb.fast_node_cache n h.cache in
      record {
        after = record ndb { batch = b.after; fast_node_cache = c.after };
        returned = rw (fast_node_key_lem n.key, b.returned, c.returned) refl;
        saves = record {
          opened = b.opened;
          stored = λ k. IsAt-with_node db look n k fits (h.stored k);
          cache = c.well;
          cached = λ k m e.
              with_node-found look n k m
                (added-found key_of ndb.fast_node_cache.max_element_count k n
                  (nodes key_of ndb.fast_node_cache.ll) m
                  (subst (λ l. Recency.find key_of k l ≡ some m) c.holds e))
                (h.cached k m);
        };
        same_version = refl;
      }

  pub delete_fast_node-Saved :
      (ndb : NodeDatabase B) (db : Items) (look : Bytes → Option FastNode) (j : Bytes)
      → Saves ndb db look
      → Saved ndb (delete_fast_node B ndb j) (B.delete_item db (102 ∷ j)) (without_key look j)
  unfolding delete_fast_node
  delete_fast_node-Saved ndb db look j h =
      let b = delete_in_batch-Batched ndb db (102 ∷ j) (ground arith) h.opened in
      let c = remove_key-Leaves key_of ndb.fast_node_cache j h.cache in
      record {
        after = record ndb { batch = b.after; fast_node_cache = c.after };
        returned = rw (fast_node_key_lem j, b.returned, c.returned) refl;
        saves = record {
          opened = b.opened;
          stored = λ k. IsAt-without_key db look j k (h.stored k);
          cache = c.well;
          cached = λ k m e.
              let (other, found) =
                removed-found key_of k j (nodes key_of ndb.fast_node_cache.ll) m
                  (subst (λ l. Recency.find key_of k l ≡ some m) c.holds e) in
              rw (equal_sym k j, other) (h.cached k m found);
        };
        same_version = refl;
      }
