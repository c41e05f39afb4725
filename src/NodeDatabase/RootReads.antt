-- ===== src/NodeDatabase/RootReads.antt =====
-- nodedb.go: `GetRoot` after a root was saved in one of the three ways of `SaveVersion`.
use iavl.Prelude.{
  ℕ, suc, ◌<◌, ◌≡◌, ◌≢◌, refl, sym, ap, ◌∙◌, [], ◌∷◌, ◌++◌, true, false, Option, none, some,
  is_some, ◌==◌, if◌then◌else◌, length, take, take-append, append-nil, Result, ok, ◌>>=◌, arith,
  Bool-cases, inl, inr,
}
use iavl.Prelude.Words.{two_32, two_64}
use iavl.Bytes.{Bytes, equal_bytes}
use iavl.Avl.Sorted.{find}
use iavl.Avl.Entries.{find-put}
use iavl.Node.{Node, NodeKey, node, Fields}
use iavl.StorageKey.{get_key, get_root_key, put_big_endian}
use iavl.StorageKey.Laws.{length-get_key, get_node_key-get_key}
use iavl.NodeStore.{write_bytes}
use iavl.NodeStore.RoundTrip.{IsStored}
use iavl.NodeStore.FirstByte.{write_bytes-NodeBytes}
use iavl.PrefixFormatter.{format_key}
use iavl.Cache.Recency.{equal_refl}
use iavl.Cache.Methods.{IsCache, add-Leaves}
use iavl.MemDb.{BTree}
use iavl.MemDb
use iavl.MemDb.Flushing.{IsOpen, written, flusher_write-written, write-IsOpen}
use iavl.NodeDatabase.{
  NodeDatabase, db_get, node_key_format, get_key_of, set_in_batch, commit, save_node, save_root,
  save_empty_root, is_reference_root,
}
use iavl.NodeDatabase.Saved.{set_in_batch-Batched}
use iavl.NodeDatabase.Roots.{get_root, root_of_value, referred_root}

-- What `SaveVersion` saves for a root: nothing for an empty tree, a reference to the root that an
-- earlier version has saved, or a new node.
pub data Root : Type 0 where
  no_root : Root
  saved_before : NodeKey → Root
  new_root : Fields → Node → Node → Root

-- the database key of a root, and of a node
format_node_key : (bz : Bytes) → length bz ≡ 12 → format_key node_key_format bz ≡ 115 ∷ bz
unfolding format_key
format_node_key bz e = rw e (
    ap (λ t. 115 ∷ t)
      (ap (λ n. take n bz ++ []) (sym e)
        ∙ append-nil (take (length bz) bz)
        ∙ ap (take (length bz)) (sym (append-nil bz))
        ∙ take-append bz []))

key_full : (bz : Bytes) → (length (format_key node_key_format bz) == 0) ≡ false
unfolding format_key
key_full bz = ground arith

module _ (B : BTree) where
  open B use {Items}

  -- `SaveEmptyRoot`, `SaveRoot` or `SaveNode`
  unfoldable pub save_root_of : NodeDatabase B → ℕ → Root → Result (NodeDatabase B)
  save_root_of ndb version no_root = save_empty_root B ndb version
  save_root_of ndb version (saved_before nk) = save_root B ndb version nk
  save_root_of ndb version (new_root f a b) = save_node B ndb (node f a b)

  -- when a root can be saved so
  pub data CanSave (db : Items) (version : ℕ) : Root → Type 0 where
    can_empty : CanSave db version no_root
    can_refer :
        {nk : NodeKey} (root : Bytes)
        → nk.version < two_64
        → nk.nonce < two_32
        → B.get_item db (format_key node_key_format (get_key nk)) ≡ some root
        → CanSave db version (saved_before nk)
    can_add :
        {f : Fields} {a b : Node}
        → f.node_key ≡ some (record { version = version; nonce = 1 })
        → f.is_legacy ≡ false
        → IsStored f
        → f.subtree_height < 128
        → CanSave db version (new_root f a b)

  abbrev pub root_found : ℕ → Root → Option Bytes
  root_found version no_root = none
  root_found version (saved_before nk) = some (get_key nk)
  root_found version (new_root f a b) = some (get_root_key version)

  -- a value that was set and committed
  pub record Wrote (r : Result (NodeDatabase B)) (db : Items) (key value : Bytes) : Type 0 where
    pub after : NodeDatabase B
    pub returned : (r >>= commit B) ≡ ok after
    pub content : after.batch.db ≡ B.replace_or_insert db key value

  set_commit :
      (ndb : NodeDatabase B) (db : Items) (key value : Bytes)
      → (length key == 0) ≡ false
      → IsOpen B ndb.batch db
      → Wrote (set_in_batch B ndb key value) db key value
  unfolding commit
  set_commit ndb db key value k h =
      let s = set_in_batch-Batched B ndb db key value k h in
      record {
        after = record ndb { batch = written B s.after s.opened.pending };
        returned =
            rw (s.returned, flusher_write-written B s.after s.opened.pending s.opened.is_open) refl;
        content = (write-IsOpen B s.after _ s.opened).0;
      }

  read_back :
      (db : Items) (j key value : Bytes)
      → B.get_item (B.replace_or_insert db key value) j
        ≡ (if equal_bytes j key then some value else B.get_item db j)
  read_back db j key value =
      B.get_item-ascend (B.replace_or_insert db key value) j
      ∙ ap (find j) (B.ascend-replace_or_insert db key value)
      ∙ find-put j key value (B.ascend db)
      ∙ ap (λ o. if equal_bytes j key then some value else o) (sym (B.get_item-ascend db j))

  -- what is read under the key of a node
  db_get-key :
      (ndb : NodeDatabase B) (bz : Bytes)
      → db_get B ndb (format_key node_key_format bz)
        ≡ ok (B.get_item ndb.batch.db (format_key node_key_format bz))
  unfolding MemDb.get
  db_get-key ndb bz = rw (key_full bz) refl

  get_root-value :
      (ndb : NodeDatabase B) (version : ℕ) (value : Bytes)
      → B.get_item ndb.batch.db (format_key node_key_format (get_root_key version)) ≡ some value
      → get_root B ndb version ≡ root_of_value B ndb (get_root_key version) value
  unfolding get_root
  get_root-value ndb version value e = rw (get_root, db_get-key ndb (get_root_key version), e) refl

  found_at :
      {r : Result (NodeDatabase B)} (db : Items) (version : ℕ) (value : Bytes)
      (w : Wrote r db (format_key node_key_format (get_root_key version)) value)
      → get_root B w.after version ≡ root_of_value B w.after (get_root_key version) value
  found_at db version value w =
      let key = format_key node_key_format (get_root_key version) in
      get_root-value w.after version value (
        ap (λ d. B.get_item d key) w.content
        ∙ read_back db key key value
        ∙ rw (equal_refl key) refl)

  -- A reference leads to the root that it names.
  referred :
      (ndb : NodeDatabase B) (nk : NodeKey) (root_key root : Bytes)
      → nk.version < two_64
      → nk.nonce < two_32
      → B.get_item ndb.batch.db (format_key node_key_format (get_key nk)) ≡ some root
      → root_of_value B ndb root_key (format_key node_key_format (get_key nk))
        ≡ ok (some (get_key nk))
  unfolding root_of_value is_reference_root referred_root
  referred ndb nk root_key root hv hn e =
      let key = format_node_key (get_key nk) (length-get_key nk) in
      let there : db_get B ndb (115 ∷ get_key nk) ≡ ok (some root) =
        ap (db_get B ndb) (sym key) ∙ db_get-key ndb (get_key nk) ∙ ap ok e in
      let long : (suc (length (get_key nk)) == 13) ≡ true = ground (arith, length-get_key nk) in
      rw key (rw (long, get_node_key-get_key nk hv hn, there) refl)

  other_value :
      (ndb : NodeDatabase B) (root_key rest : Bytes) (first : ℕ)
      → first ≢ 115
      → root_of_value B ndb root_key (first ∷ rest) ≡ ok (some root_key)
  unfolding root_of_value is_reference_root
  other_value ndb root_key rest first h =
      let no_reference : (first == 115) ≡ false = ground arith in rw no_reference refl

  -- The root is read from the database as it is after the reference to it was written.
  still_there :
      (after : NodeDatabase B) (db : Items) (nk : NodeKey) (root_key rk root : Bytes)
      → nk.version < two_64
      → nk.nonce < two_32
      → B.get_item after.batch.db (format_key node_key_format (get_key nk)) ≡ (
          if equal_bytes (format_key node_key_format (get_key nk)) rk
          then some (format_key node_key_format (get_key nk))
          else B.get_item db (format_key node_key_format (get_key nk)))
      → B.get_item db (format_key node_key_format (get_key nk)) ≡ some root
      → root_of_value B after root_key (format_key node_key_format (get_key nk))
        ≡ ok (some (get_key nk))
  still_there after db nk root_key rk root hv hn g e =
      let value = format_key node_key_format (get_key nk) in
      elim (Bool-cases (equal_bytes value rk)) [
        | inl c ↦ referred after nk root_key value hv hn (g ∙ rw c refl)
        | inr c ↦ referred after nk root_key root hv hn (g ∙ rw c e)
      ]

  get_key_of_new :
      (f : Fields) (a b : Node) (version : ℕ)
      → f.node_key ≡ some (record { version = version; nonce = 1 })
      → f.is_legacy ≡ false
      → get_key_of (node f a b) ≡ get_root_key version
  unfolding get_key_of get_root_key put_big_endian get_key
  get_key_of_new f a b version q l = rw (l, q) refl

  save_node-Wrote :
      (ndb : NodeDatabase B) (db : Items) (f : Fields) (a b : Node) (version : ℕ) (value : Bytes)
      → IsOpen B ndb.batch db
      → IsCache get_key_of ndb.node_cache
      → f.node_key ≡ some (record { version = version; nonce = 1 })
      → f.is_legacy ≡ false
      → write_bytes true (node f a b) [] ≡ ok value
      → Wrote
          (save_node B ndb (node f a b))
          db
          (format_key node_key_format (get_root_key version))
          value
  unfolding commit save_node
  save_node-Wrote ndb db f a b version value h c q l w =
      let rk = format_key node_key_format (get_root_key version) in
      let s = set_in_batch-Batched B ndb db rk value (key_full _) h in
      let added = add-Leaves get_key_of ndb.node_cache (node f a b) c in
      let there : is_some f.node_key ≡ true = ap is_some q in
      record {
        after = record ndb { batch = written B s.after s.opened.pending; node_cache = added.after };
        returned =
            rw
              (
                there,
                w,
                get_key_of_new f a b version q l,
                s.returned,
                added.returned,
                flusher_write-written B s.after s.opened.pending s.opened.is_open,
              )
              refl;
        content = (write-IsOpen B s.after _ s.opened).0;
      }

  -- From an open batch and a cache in order: a root that is saved and committed in one of the three
  -- ways of `SaveVersion` is told apart from the others by `GetRoot`, which finds no root for an
  -- empty tree, the key of the root that an earlier version has saved and the database has for a
  -- reference, and the key of version and nonce 1 for a new node under this key, which is in the
  -- new format, can be saved and has a height that is not negative.
  pub get_root-save_root_of :
      (ndb : NodeDatabase B) (db : Items) (version : ℕ) (root : Root)
      → IsOpen B ndb.batch db
      → IsCache get_key_of ndb.node_cache
      → CanSave db version root
      → (after : NodeDatabase B) × ((save_root_of ndb version root >>= commit B) ≡ ok after)
        × (get_root B after version ≡ ok (root_found version root))
  unfolding save_root_of save_empty_root save_root save_node root_of_value
  get_root-save_root_of ndb db version no_root h c can_empty =
      let w =
        set_commit ndb db (format_key node_key_format (get_root_key version)) [] (key_full _) h in
      (w.after, w.returned, found_at db version [] w)
  get_root-save_root_of ndb db version (saved_before nk) h c (can_refer root hv hn e) =
      let rk = format_key node_key_format (get_root_key version) in
      let value = format_key node_key_format (get_key nk) in
      let w = set_commit ndb db rk value (key_full _) h in
      (
        w.after,
        w.returned,
        found_at db version value w
            ∙ still_there w.after db nk (get_root_key version) rk root hv hn
                (ap (λ d. B.get_item d value) w.content ∙ read_back db value rk value) e,
      )
  get_root-save_root_of ndb db version (new_root f a b) h c (can_add q l is small) =
      let bytes = write_bytes-NodeBytes true f a b is small in
      let w =
        save_node-Wrote ndb db f a b version (bytes.first ∷ bytes.rest) h c q l bytes.written in
      (
        w.after,
        w.returned,
        found_at db version (bytes.first ∷ bytes.rest) w
            ∙ other_value w.after (get_root_key version) bytes.rest bytes.first bytes.differs,
      )
