-- ===== src/MemDb.antt =====
-- db/memdb.go: the database in memory, its iterators and its batches; batch.go: the batch that
-- flushes itself.
-- `BTree` is google/btree, a parameter: its trees with the methods that the source calls, where a
-- method that takes a visitor gives the list of the items that it visits, and with what its
-- documentation says of them. A nil key is an empty one, but an end of a range may be nil. The
-- channel between an iterator and its goroutine is the list of the items that go through it. No sum
-- of sizes overflows an `int`, and a negative threshold is left out: it acts like 0.
pub mod Iterations
pub mod Flushing
use iavl.Prelude.{
  ℕ, get_or, ◌+◌, ◌≡◌, List, [], ◌∷◌, ◌++◌, Bool, true, false, not, ◌&&◌, ◌||◌, Option, none, some,
  is_some, ltb, ◌==◌, if◌then◌else◌, length, Result, ok, err, panic, ◌>>=◌, Error,
}
use mathlib.Core.List.{reverse}
use iavl.Bytes.{Bytes, lt_bytes, equal_bytes}
use iavl.Avl.{Entry}
use iavl.Avl.Sorted.{find, put, delete}
use iavl.Avl.Entries.{IsSorted}
use iavl.Traversal.Ranges.{select}

pub record BTree : Type 1 where
  pub Items : Type 0
  pub empty : Items
  pub get_item : Items → Bytes → Option Bytes
  pub replace_or_insert : Items → Bytes → Bytes → Items
  pub delete_item : Items → Bytes → Items
  pub ascend : Items → List Entry
  pub descend : Items → List Entry
  pub ascend_greater_or_equal : Items → Bytes → List Entry
  pub ascend_range : Items → Bytes → Bytes → List Entry
  pub descend_less_or_equal : Items → Bytes → List Entry
  pub ascend-empty : ascend empty ≡ []
  pub ascend-IsSorted : (t : Items) → IsSorted (ascend t)
  pub get_item-ascend : (t : Items) (k : Bytes) → get_item t k ≡ find k (ascend t)
  pub ascend-replace_or_insert :
      (t : Items) (k v : Bytes) → ascend (replace_or_insert t k v) ≡ put k v (ascend t)
  pub ascend-delete_item : (t : Items) (k : Bytes) → ascend (delete_item t k) ≡ delete k (ascend t)
  pub descend-ascend : (t : Items) → descend t ≡ reverse (ascend t)
  pub ascend_greater_or_equal-ascend :
      (t : Items) (a : Bytes)
      → ascend_greater_or_equal t a ≡ select (λ e. not (lt_bytes e.0 a)) (ascend t)
  pub ascend_range-ascend :
      (t : Items) (a b : Bytes)
      → ascend_range t a b ≡ select (λ e. not (lt_bytes e.0 a) && lt_bytes e.0 b) (ascend t)
  pub descend_less_or_equal-ascend :
      (t : Items) (b : Bytes)
      → descend_less_or_equal t b ≡ reverse (select (λ e. not (lt_bytes b e.0)) (ascend t))

-- `opTypeSet` and `opTypeDelete`
pub data Operation : Type 0 where
  op_set : Bytes → Bytes → Operation
  op_delete : Bytes → Operation

-- `ops` is `none` after `Close`.
pub record MemDbBatch : Type 0 where
  pub ops : Option (List Operation)
  pub size : ℕ

unfoldable pub new_batch : MemDbBatch
new_batch = record { ops = some []; size = 0 }

unfoldable pub batch_set : MemDbBatch → Bytes → Option Bytes → Result MemDbBatch
batch_set b key none = if length key == 0 then err Error.key_empty else err Error.value_nil
batch_set b key (some value) = if length key == 0 then err Error.key_empty else elim b.ops [
  | none ↦ err Error.batch_closed
  | some ops ↦ ok (record {
    size = b.size + (length key + length value);
    ops = some (ops ++ op_set key value ∷ []);
  })
]

unfoldable pub batch_delete : MemDbBatch → Bytes → Result MemDbBatch
batch_delete b key = if length key == 0 then err Error.key_empty else elim b.ops [
  | none ↦ err Error.batch_closed
  | some ops ↦ ok (record { size = b.size + length key; ops = some (ops ++ op_delete key ∷ []) })
]

abbrev pub batch_close : MemDbBatch → MemDbBatch
batch_close b = record { ops = none; size = 0 }

unfoldable pub get_byte_size : MemDbBatch → Result ℕ
get_byte_size b = elim b.ops [ none ↦ err Error.batch_closed | some ops ↦ ok b.size ]

-- `memDBIterator`: what is still to come through the channel, and the current item.
pub record MemDbIterator : Type 0 where
  pub ch : List Entry
  pub item : Option Entry
  pub start : Option Bytes
  pub end : Option Bytes

unfoldable pub valid : MemDbIterator → Bool
valid i = is_some i.item

-- a receive from the channel
abbrev pub receive : MemDbIterator → List Entry → MemDbIterator
receive i [] = record i { ch = []; item = none }
receive i (e ∷ rest) = record i { ch = rest; item = some e }

unfoldable pub next : MemDbIterator → Result MemDbIterator
next i = elim i.item [ none ↦ panic | some e ↦ ok (receive i i.ch) ]

unfoldable pub iterator_key : MemDbIterator → Result Bytes
iterator_key i = elim i.item [ none ↦ panic | some e ↦ ok e.0 ]

unfoldable pub iterator_value : MemDbIterator → Result Bytes
iterator_value i = elim i.item [ none ↦ panic | some e ↦ ok e.1 ]

-- `!= nil && bytes.Equal` and `!= nil && bytes.Compare(…) == -1`
abbrev pub skips : Option Bytes → Bytes → Bool
skips none key = false
skips (some bound) key = equal_bytes key bound

abbrev pub aborts : Option Bytes → Bytes → Bool
aborts none key = false
aborts (some bound) key = lt_bytes key bound

-- What the visitor sends of the items that it is called with.
unfoldable pub sent : (skip_equal abort_less_than : Option Bytes) → List Entry → List Entry
sent skip_equal abort_less_than [] = []
sent skip_equal abort_less_than ((k, v) ∷ l) =
    if skips skip_equal k
    then sent none abort_less_than l
    else (if aborts abort_less_than k then [] else (k, v) ∷ sent skip_equal abort_less_than l)

abbrev pub is_empty : Option Bytes → Bool
is_empty none = false
is_empty (some b) = length b == 0

module _ (B : BTree) where
  open B use {Items}

  -- `MemDB`, as its tree
  unfoldable pub get : Items → Bytes → Result (Option Bytes)
  get db key = if length key == 0 then err Error.key_empty else ok (B.get_item db key)

  unfoldable pub has : Items → Bytes → Result Bool
  has db key = if length key == 0 then err Error.key_empty else ok (is_some (B.get_item db key))

  unfoldable pub set : Items → Bytes → Option Bytes → Result Items
  set db key none = if length key == 0 then err Error.key_empty else err Error.value_nil
  set db key (some value) =
      if length key == 0 then err Error.key_empty else ok (B.replace_or_insert db key value)

  unfoldable pub delete_key : Items → Bytes → Result Items
  delete_key db key = if length key == 0 then err Error.key_empty else ok (B.delete_item db key)

  -- the switch over the ends of the range
  unfoldable pub visited : Items → Option Bytes → Option Bytes → (reverse : Bool) → List Entry
  unfolding sent
  visited db none none false = sent none none (B.ascend db)
  visited db none none true = sent none none (B.descend db)
  visited db (some start) none false = sent none none (B.ascend_greater_or_equal db start)
  visited db none (some end) false = sent none none (B.ascend_range db [] end)
  visited db (some start) (some end) false = sent none none (B.ascend_range db start end)
  visited db (some start) none true = sent none (some start) (B.descend db)
  visited db start (some end) true = sent (some end) start (B.descend_less_or_equal db end)

  unfoldable pub new_iterator : Items → Option Bytes → Option Bytes → Bool → MemDbIterator
  unfolding visited
  new_iterator db start end reverse =
      receive (record { ch = []; item = none; start = start; end = end })
        (visited db start end reverse)

  -- `Iterator` and `ReverseIterator`
  unfoldable pub iterator : Items → Option Bytes → Option Bytes → Bool → Result MemDbIterator
  unfolding new_iterator
  iterator db start end reverse =
      if is_empty start || is_empty end
      then err Error.key_empty
      else ok (new_iterator db start end reverse)

  unfoldable pub apply_op : Items → Operation → Items
  apply_op db (op_set key value) = B.replace_or_insert db key value
  apply_op db (op_delete key) = B.delete_item db key

  unfoldable pub apply_ops : Items → List Operation → Items
  unfolding apply_op
  apply_ops db [] = db
  apply_ops db (op ∷ ops) = apply_ops (apply_op db op) ops

  unfoldable pub batch_write : Items → MemDbBatch → Result (Items × MemDbBatch)
  unfolding apply_ops
  batch_write db b = elim b.ops [
    | none ↦ err Error.batch_closed
    | some ops ↦ ok (apply_ops db ops, batch_close b)
  ]

  -- `BatchWithFlusher`, with the database to which it writes
  pub record BatchWithFlusher : Type 0 where
    pub db : Items
    pub batch : MemDbBatch
    pub flush_threshold : ℕ

  unfoldable pub new_batch_with_flusher : Items → ℕ → BatchWithFlusher
  unfolding new_batch
  new_batch_with_flusher db flush_threshold = record {
    db = db;
    batch = new_batch;
    flush_threshold = flush_threshold;
  }

  unfoldable pub estimate_size_after_setting : BatchWithFlusher → Bytes → Bytes → Result ℕ
  unfolding get_byte_size
  estimate_size_after_setting b key value = do
    current_size ← get_byte_size b.batch
    ok (current_size + length key + length value + 100)

  -- `Write` and `WriteSync`, which the database in memory does not tell apart
  unfoldable pub flusher_write : BatchWithFlusher → Result BatchWithFlusher
  unfolding batch_write new_batch
  flusher_write b = do
    (db, closed) ← batch_write b.db b.batch
    ok (record b { db = db; batch = new_batch })

  -- the flush in front of a change that would exceed the threshold
  unfoldable pub flush_if_full : BatchWithFlusher → ℕ → Result BatchWithFlusher
  unfolding flusher_write
  flush_if_full b batch_size_after =
      if ltb b.flush_threshold batch_size_after then flusher_write b else ok b

  unfoldable pub flusher_set : BatchWithFlusher → Bytes → Option Bytes → Result BatchWithFlusher
  unfolding estimate_size_after_setting flush_if_full batch_set
  flusher_set b key value = do
    batch_size_after ← estimate_size_after_setting b key (get_or value [])
    b ← flush_if_full b batch_size_after
    batch ← batch_set b.batch key value
    ok (record b { batch = batch })

  unfoldable pub flusher_delete : BatchWithFlusher → Bytes → Result BatchWithFlusher
  unfolding estimate_size_after_setting flush_if_full batch_delete
  flusher_delete b key = do
    batch_size_after ← estimate_size_after_setting b key []
    b ← flush_if_full b batch_size_after
    batch ← batch_delete b.batch key
    ok (record b { batch = batch })
