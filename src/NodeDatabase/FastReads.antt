-- ===== src/NodeDatabase/FastReads.antt =====
-- nodedb.go: reads of fast nodes through the cache, and the commit of the pending changes.
use iavl.Prelude.{
  ◌≡◌, refl, sym, ap, subst, ◌∙◌, ◌∷◌, true, false, Option, none, some, if◌then◌else◌, length,
  Result, ok, ◌==◌, suc, drop, >>=-eq-ok, arith, Bool-cases, Option-cases, inl, inr,
}
use iavl.Bytes.{Bytes, equal_bytes}
use iavl.FastNode.{FastNode, deserialize_node}
use iavl.Encoding.{decode_varint, decode_bytes}
use iavl.Cache
use iavl.Cache.{LruCache}
use iavl.Cache.Recency
use iavl.Cache.Recency.{nodes, equal_sym, eq_of_equal}
use iavl.Cache.Methods.{get-Leaves, add-Leaves}
use iavl.Cache.Held.{touched-found, added-found}
use iavl.MemDb.{BTree}
use iavl.MemDb
use iavl.MemDb.Flushing.{flusher_write-written, written, write-IsOpen}
use iavl.NodeDatabase.{
  NodeDatabase, commit, cache_fast_node, load_fast_node, get_fast_node,
  has_upgraded_to_fast_storage,
}
use iavl.NodeDatabase.Saved.{
  with_node, key_of, IsRead, IsAt, Saves, fast_node_key_lem, with_node-found,
}

-- The node that was read has the key under which it was.
deserialize_node-key : (k bz : Bytes) (n : FastNode) → deserialize_node k bz ≡ ok n → n.key ≡ k
unfolding deserialize_node
deserialize_node-key k bz n h =
    let (ver, version, rest) = >>=-eq-ok (decode_varint bz) _ h in
    let (val, value, made) = >>=-eq-ok (decode_bytes (drop ver.1 bz)) _ rest in key_of_ok made
  where
    key_of_ok : {m : FastNode} → ok m ≡ ok n → n.key ≡ m.key
    key_of_ok e = cc

same_look :
    (look : Bytes → Option FastNode) (n : FastNode) (j : Bytes) (m : FastNode)
    → look n.key ≡ some n
    → with_node look n j ≡ some m
    → look j ≡ some m
same_look look n j m e h = elim (Bool-cases (equal_bytes j n.key)) [
  | inl c ↦ rw (eq_of_equal j n.key c, e) (subst (λ b. (if b then some n else look j) ≡ some m) c h)
  | inr c ↦ subst (λ b. (if b then some n else look j) ≡ some m) c h
]

module _ (B : BTree) where
  open B use {Items}

  -- Writing the pending changes would leave the database as it is, what is found in it and in the
  -- cache is what `look` gives, and the storage version is that of fast storage or a later one.
  pub record Committed (ndb : NodeDatabase B) (look : Bytes → Option FastNode) : Type 0 where
    pub saves : Saves B ndb ndb.batch.db look
    pub upgraded : has_upgraded_to_fast_storage B ndb ≡ true

  pub record Read (r : Result (Option FastNode × NodeDatabase B)) (look : Bytes → Option FastNode)
      (k : Bytes) : Type 0 where
    pub after : NodeDatabase B
    pub returned : r ≡ ok (look k, after)
    pub committed : Committed after look

  load_cached :
      (ndb : NodeDatabase B) (k : Bytes) (n : FastNode)
      → load_fast_node B ndb k (some n) ≡ ok (some n, ndb)
  unfolding load_fast_node
  load_cached ndb k n = refl

  get_fast_node-start :
      (ndb : NodeDatabase B) (k : Bytes) (cache : LruCache FastNode) (cached : Option FastNode)
      → has_upgraded_to_fast_storage B ndb ≡ true
      → (length k == 0) ≡ false
      → Cache.get ndb.fast_node_cache k ≡ ok (cached, cache)
      → get_fast_node B ndb k ≡ load_fast_node B (record ndb { fast_node_cache = cache }) k cached
  unfolding get_fast_node
  get_fast_node-start ndb k cache cached u e c = rw (get_fast_node, u, e, c) refl

  cache_fast_node-Read :
      (ndb : NodeDatabase B) (look : Bytes → Option FastNode) (k : Bytes) (buf : Option Bytes)
      (found : Option FastNode)
      → look k ≡ found
      → IsRead k buf found
      → Committed ndb look
      → Read (cache_fast_node B ndb k buf) look k
  unfolding cache_fast_node has_upgraded_to_fast_storage
  cache_fast_node-Read ndb look k buf none e at h = record {
    after = ndb;
    returned = rw (at, e) refl;
    committed = h;
  }
  cache_fast_node-Read ndb look k buf (some n) e (bz, at, read) h =
      let c = add-Leaves key_of ndb.fast_node_cache n h.saves.cache in
      record {
        after = record ndb { fast_node_cache = c.after };
        returned = rw (at, e) (rw (read, c.returned) refl);
        committed = record {
          saves = record {
            opened = h.saves.opened;
            stored = h.saves.stored;
            cache = c.well;
            cached = λ j m q.
                same_look look n j m
                  (subst (λ x. look x ≡ some n) (sym (deserialize_node-key k bz n read)) e)
                  (with_node-found look n j m
                    (added-found key_of ndb.fast_node_cache.max_element_count j n
                      (nodes key_of ndb.fast_node_cache.ll) m
                      (subst (λ l. Recency.find key_of j l ≡ some m) c.holds q))
                    (h.saves.cached j m));
          };
          upgraded = h.upgraded;
        };
      }

  load_fast_node-Read :
      (ndb : NodeDatabase B) (look : Bytes → Option FastNode) (k : Bytes)
      → Committed ndb look
      → Read (load_fast_node B ndb k none) look k
  unfolding load_fast_node MemDb.get
  load_fast_node-Read ndb look k h =
      let r =
        cache_fast_node-Read ndb look k (B.get_item ndb.batch.db (102 ∷ k)) (look k) refl
          (h.saves.stored k) h in
      let full : (suc (length k) == 0) ≡ false = ground arith in
      record {
        after = r.after;
        returned = rw (fast_node_key_lem k, full) r.returned;
        committed = r.committed;
      }

  -- Where the key is not empty, the storage version is that of fast storage or a later one, the
  -- changes that are still pending change nothing in the database, the database has at each key the
  -- bytes of the fast node that `look` gives or nothing where it gives none, and the cache has no
  -- fast node but those of `look`: then `GetFastNode` does not fail, answers what `look` gives at
  -- the key, and leaves a node database with the same conditions on `look`, so that a read that
  -- follows answers the same. It says nothing of reads between a change and its commit.
  pub get_fast_node-Read :
      (ndb : NodeDatabase B) (look : Bytes → Option FastNode) (k : Bytes)
      → (length k == 0) ≡ false
      → Committed ndb look
      → Read (get_fast_node B ndb k) look k
  unfolding has_upgraded_to_fast_storage
  get_fast_node-Read ndb look k nonempty h =
      let c = get-Leaves key_of ndb.fast_node_cache k h.saves.cache in
      let ndb' : NodeDatabase B = record ndb { fast_node_cache = c.after } in
      let h' : Committed ndb' look = record {
        saves = record {
          opened = h.saves.opened;
          stored = h.saves.stored;
          cache = c.well;
          cached = λ j m q. h.saves.cached j m (
              touched-found key_of j k (nodes key_of ndb.fast_node_cache.ll) m
                (subst (λ l. Recency.find key_of j l ≡ some m) c.holds q));
        };
        upgraded = h.upgraded;
      } in
      let start : get_fast_node B ndb k
          ≡ load_fast_node B ndb' k (Recency.find key_of k (nodes key_of ndb.fast_node_cache.ll)) =
        get_fast_node-start ndb k c.after _ h.upgraded nonempty c.returned in
      elim (Option-cases (Recency.find key_of k (nodes key_of ndb.fast_node_cache.ll))) [
        | inl e ↦
            let r = load_fast_node-Read ndb' look k h' in
            record {
              after = r.after;
              returned = start ∙ ap (load_fast_node B ndb' k) e ∙ r.returned;
              committed = r.committed;
            }
        | inr (n, e) ↦ record {
          after = ndb';
          returned =
              start
              ∙ ap (load_fast_node B ndb' k) e
              ∙ load_cached ndb' k n
              ∙ ap (λ o. ok (o, ndb')) (sym (h.saves.cached k n e));
          committed = h';
        }
      ]

  -- What was pending is read after a commit.
  pub commit-Committed :
      (ndb : NodeDatabase B) (db : Items) (look : Bytes → Option FastNode)
      → Saves B ndb db look
      → has_upgraded_to_fast_storage B ndb ≡ true
      → (after : NodeDatabase B) × (commit B ndb ≡ ok after)
        × Committed after look
        × (after.storage_version ≡ ndb.storage_version)
  unfolding commit has_upgraded_to_fast_storage
  commit-Committed ndb db look h u =
      let b = written B ndb.batch h.opened.pending in
      let (same, opened) = write-IsOpen B ndb.batch db h.opened in
      (
        record ndb { batch = b },
        rw (flusher_write-written B ndb.batch h.opened.pending h.opened.is_open) refl,
        record {
          saves = record {
            opened = opened;
            stored = λ k. subst (λ d. IsAt B d k (look k)) (sym same) (h.stored k);
            cache = h.cache;
            cached = h.cached;
          };
          upgraded = u;
        },
        refl,
      )
