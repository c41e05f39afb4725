-- ===== src/MemDb/Flushing.antt =====
-- batch.go: changes that go through a batch that flushes itself.
use iavl.Prelude.{
  ◌⊎◌, ℕ, get_or, ◌+◌, ◌≤◌, ◌≡◌, refl, sym, ap, subst, ◌∙◌, List, [], ◌∷◌, ◌++◌, All, true, false,
  some, ltb, ◌==◌, length, Result, ok, ◌>>=◌, arith, Bool-cases, inl, inr,
}
use iavl.Bytes.{Bytes}
use iavl.MemDb.{
  BTree, Operation, op_set, op_delete, new_batch, batch_set, batch_delete, apply_op, apply_ops,
  batch_write, BatchWithFlusher, new_batch_with_flusher, flusher_write, flush_if_full, flusher_set,
  flusher_delete, estimate_size_after_setting, get_byte_size,
}

abbrev pub op_key : Operation → Bytes
op_key (op_set key value) = key
op_key (op_delete key) = key

abbrev pub op_size : Operation → ℕ
op_size (op_set key value) = length key + length value
op_size (op_delete key) = length key

-- the keys are not empty
abbrev pub HaveKeys : List Operation → Type 0
HaveKeys = All (λ op. (length (op_key op) == 0) ≡ false)

module _ (B : BTree) where
  open B use {Items}

  pub apply_ops-append :
      (db : Items) (xs ys : List Operation)
      → apply_ops B db (xs ++ ys) ≡ apply_ops B (apply_ops B db xs) ys
  unfolding apply_ops
  apply_ops-append db [] ys = refl
  apply_ops-append db (x ∷ xs) ys = apply_ops-append (apply_op B db x) xs ys

  -- `Set` or `Delete`
  unfoldable pub change : BatchWithFlusher B → Operation → Result (BatchWithFlusher B)
  change b (op_set key value) = flusher_set B b key (some value)
  change b (op_delete key) = flusher_delete B b key

  unfoldable pub change_all : BatchWithFlusher B → List Operation → Result (BatchWithFlusher B)
  change_all b [] = ok b
  change_all b (op ∷ ops) = do b ← change b op; change_all b ops

  -- The state of an open batch: what is pending, and that there is not too much of it. The whole
  -- content is that of the database after the pending changes.
  pub record IsOpen (b : BatchWithFlusher B) (db : Items) : Type 0 where
    pub pending : List Operation
    pub is_open : b.batch.ops ≡ some pending
    pub content : apply_ops B b.db pending ≡ db
    pub bounded : (b.batch.size + 100 ≤ b.flush_threshold) ⊎ (length pending ≤ 1)

  pub record Changed (threshold : ℕ) (r : Result (BatchWithFlusher B)) (db : Items) : Type 0 where
    pub after : BatchWithFlusher B
    pub returned : r ≡ ok after
    pub well : IsOpen after db
    pub same_threshold : after.flush_threshold ≡ threshold

  -- the batch with one more pending change
  abbrev pushed : BatchWithFlusher B → List Operation → Operation → BatchWithFlusher B
  pushed b pending op = record b {
    batch = record { size = b.batch.size + op_size op; ops = some (pending ++ op ∷ []) };
  }

  unfoldable add_op : BatchWithFlusher B → Operation → Result (BatchWithFlusher B)
  unfolding batch_set batch_delete
  add_op b (op_set key value) = do
    batch ← batch_set b.batch key (some value)
    ok (record b { batch = batch })
  add_op b (op_delete key) = do batch ← batch_delete b.batch key; ok (record b { batch = batch })

  add_op-pushed :
      (b : BatchWithFlusher B) (op : Operation) (pending : List Operation)
      → (length (op_key op) == 0) ≡ false
      → b.batch.ops ≡ some pending
      → add_op b op ≡ ok (pushed b pending op)
  unfolding add_op batch_set batch_delete
  add_op-pushed b (op_set key value) pending h e = rw (add_op, h, e) refl
  add_op-pushed b (op_delete key) pending h e = rw (add_op, h, e) refl

  estimated :
      (b : BatchWithFlusher B) (key value : Bytes) (pending : List Operation)
      → b.batch.ops ≡ some pending
      → estimate_size_after_setting B b key value
        ≡ ok (b.batch.size + (length key + length value) + 100)
  unfolding estimate_size_after_setting get_byte_size
  estimated b key value pending e = rw (get_byte_size, e) (ap ok (omega arith))

  change-add_op :
      (b : BatchWithFlusher B) (op : Operation) (pending : List Operation)
      → b.batch.ops ≡ some pending
      → change b op ≡ (flush_if_full B b (b.batch.size + op_size op + 100) >>= λ b. add_op b op)
  unfolding change add_op flusher_set flusher_delete
  change-add_op b (op_set key value) pending e =
      let rest : Result ℕ → Result (BatchWithFlusher B) = λ r.
        ◌>>=◌ {B = BatchWithFlusher B} r
          (λ n. flush_if_full B b n >>= λ b. add_op b (op_set key value)) in
      ap rest (estimated b key value pending e)
  change-add_op b (op_delete key) pending e =
      let rest : Result ℕ → Result (BatchWithFlusher B) = λ r.
        ◌>>=◌ {B = BatchWithFlusher B} r
          (λ n. flush_if_full B b n >>= λ b. add_op b (op_delete key)) in
      ap rest (estimated b key [] pending e ∙ ap ok (omega arith))

  -- what a write does to an open batch
  unfoldable pub written : BatchWithFlusher B → List Operation → BatchWithFlusher B
  written b pending = record b { db = apply_ops B b.db pending; batch = new_batch }

  pub flusher_write-written :
      (b : BatchWithFlusher B) (pending : List Operation)
      → b.batch.ops ≡ some pending
      → flusher_write B b ≡ ok (written b pending)
  unfolding flusher_write batch_write written
  flusher_write-written b pending e = rw (batch_write, e) refl

  flushed :
      (b : BatchWithFlusher B) (n : ℕ) (pending : List Operation)
      → ltb b.flush_threshold n ≡ true
      → b.batch.ops ≡ some pending
      → flush_if_full B b n ≡ ok (written b pending)
  unfolding flush_if_full
  flushed b n pending full e = rw full (flusher_write-written b pending e)

  kept :
      (b : BatchWithFlusher B) (n : ℕ)
      → ltb b.flush_threshold n ≡ false
      → flush_if_full B b n ≡ ok b
  unfolding flush_if_full
  kept b n room = rw room refl

  -- A change is pending after it, behind the pending ones, or alone after a flush.
  pub change-Changed :
      (b : BatchWithFlusher B) (db : Items) (op : Operation)
      → (length (op_key op) == 0) ≡ false
      → IsOpen b db
      → Changed b.flush_threshold (change b op) (apply_op B db op)
  unfolding apply_ops written new_batch
  change-Changed b db op k h =
      elim (Bool-cases (ltb b.flush_threshold (b.batch.size + op_size op + 100))) [
        | inl full ↦ record {
          after = pushed (written b h.pending) [] op;
          returned =
              change-add_op b op h.pending h.is_open
              ∙ rw (flushed b (b.batch.size + op_size op + 100) h.pending full h.is_open)
                  (add_op-pushed (written b h.pending) op [] k refl);
          well = record {
            pending = op ∷ [];
            is_open = refl;
            content = ap (λ d. apply_op B d op) h.content;
            bounded = inr (omega arith);
          };
          same_threshold = refl;
        }
        | inr room ↦ record {
          after = pushed b h.pending op;
          returned =
              change-add_op b op h.pending h.is_open
              ∙ rw (kept b (b.batch.size + op_size op + 100) room)
                  (add_op-pushed b op h.pending k h.is_open);
          well = record {
            pending = h.pending ++ op ∷ [];
            is_open = refl;
            content =
                apply_ops-append b.db h.pending (op ∷ []) ∙ ap (λ d. apply_op B d op) h.content;
            bounded = inl (ground arith);
          };
          same_threshold = refl;
        }
      ]

  change_all-Changed :
      (b : BatchWithFlusher B) (db : Items) (threshold : ℕ) (ops : List Operation)
      → HaveKeys ops
      → IsOpen b db
      → b.flush_threshold ≡ threshold
      → Changed threshold (change_all b ops) (apply_ops B db ops)
  unfolding change_all apply_ops
  change_all-Changed b db threshold [] k h e = record {
    after = b;
    returned = refl;
    well = h;
    same_threshold = e;
  }
  change_all-Changed b db threshold (op ∷ ops) (k, ks) h e =
      let first = change-Changed b db op k h in
      let rest =
        change_all-Changed first.after (apply_op B db op) threshold ops ks first.well
          (first.same_threshold ∙ e) in
      record {
        after = rest.after;
        returned = rw first.returned rest.returned;
        well = rest.well;
        same_threshold = rest.same_threshold;
      }

  new-IsOpen : (db : Items) (threshold : ℕ) → IsOpen (new_batch_with_flusher B db threshold) db
  unfolding new_batch_with_flusher new_batch apply_ops
  new-IsOpen db threshold = record {
    pending = [];
    is_open = refl;
    content = refl;
    bounded = inr (omega arith);
  }

  same_threshold :
      (db : Items) (threshold : ℕ)
      → (new_batch_with_flusher B db threshold).flush_threshold ≡ threshold
  unfolding new_batch_with_flusher
  same_threshold db threshold = refl

  concluded :
      (threshold : ℕ) (r : Result (BatchWithFlusher B)) (db : Items)
      → Changed threshold r db
      → (b : BatchWithFlusher B) × (r ≡ ok b)
        × ((b.batch.size + 100 ≤ threshold) ⊎ (length (get_or b.batch.ops []) ≤ 1))
        × (flusher_write B b
            ≡ ok (record { db = db; batch = new_batch; flush_threshold = threshold }))
  unfolding written
  concluded threshold r db c = (
    c.after,
    c.returned,
    subst (λ o. (c.after.batch.size + 100 ≤ threshold) ⊎ (length (get_or o []) ≤ 1))
        (sym c.well.is_open)
        (subst (λ t. (c.after.batch.size + 100 ≤ t) ⊎ (length c.well.pending ≤ 1)) c.same_threshold
          c.well.bounded),
    flusher_write-written c.after c.well.pending c.well.is_open
        ∙ ap (λ d. ok (record (c.after) { db = d; batch = new_batch })) c.well.content
        ∙ ap (λ t. ok (record { db = db; batch = new_batch; flush_threshold = t }))
            c.same_threshold,
  )

  -- Sets and deletions whose keys are not empty, through a new batch with any threshold and with a
  -- write at the end, return without an error and leave in the database what they leave when each
  -- is done at once, in their order, wherever the batch flushes itself. In front of the write, the
  -- batch holds at most one change, or its size with 100 bytes more is within the threshold.
  pub change_all-flusher_write :
      (db : Items) (threshold : ℕ) (ops : List Operation)
      → HaveKeys ops
      → (b : BatchWithFlusher B) × (change_all (new_batch_with_flusher B db threshold) ops ≡ ok b)
        × ((b.batch.size + 100 ≤ threshold) ⊎ (length (get_or b.batch.ops []) ≤ 1))
        × (flusher_write B b
            ≡ ok (record {
              db = apply_ops B db ops;
              batch = new_batch;
              flush_threshold = threshold;
            }))
  change_all-flusher_write db threshold ops k =
      concluded threshold (change_all (new_batch_with_flusher B db threshold) ops)
        (apply_ops B db ops)
        (change_all-Changed (new_batch_with_flusher B db threshold) db threshold ops k
          (new-IsOpen db threshold) (same_threshold db threshold))

  -- a written batch has nothing pending
  pub write-IsOpen :
      (b : BatchWithFlusher B) (db : Items) (h : IsOpen b db)
      → ((written b h.pending).db ≡ db) × IsOpen (written b h.pending) (written b h.pending).db
  unfolding written new_batch apply_ops
  write-IsOpen b db h = (
    h.content,
    record { pending = []; is_open = refl; content = refl; bounded = inr (omega arith) },
  )
