-- ===== src/FastIterator.antt =====
-- fast_iterator.go and `getFastIterator` of nodedb.go: the saved fast nodes in the order of their
-- keys, in one of the two directions. The node database of an iterator is not nil, and its database
-- is the one in memory, whose iterators have no errors of their own.
pub mod Reads
use iavl.Prelude.{
  ◌+◌, ◌%◌, [], ◌∷◌, Bool, true, false, not, ◌&&◌, Option, none, some, if◌then◌else◌, length, ◌==◌,
  Result, ok, err, panic, stuck, ◌>>=◌, Error,
}
use iavl.Prelude.Words.{two_8}
use iavl.Bytes.{Bytes}
use iavl.FastNode.{FastNode, deserialize_node}
use iavl.KeyFormat.{key_bytes}
use iavl.MemDb.{BTree, MemDbIterator, iterator, iterator_key, iterator_value}
use iavl.MemDb
use iavl.NodeDatabase.{NodeDatabase, fast_key_format, fast_node_key}

-- `iter.err` is `failure`.
pub record FastIterator : Type 0 where
  pub start : Option Bytes
  pub end : Option Bytes
  pub valid : Bool
  pub ascending : Bool
  pub failure : Option Error
  pub next_fast_node : Option FastNode
  pub fast_iterator : Option MemDbIterator

-- `endFormatted[0]++`
unfoldable pub increment_first : Bytes → Result Bytes
increment_first [] = panic
increment_first (b ∷ bz) = ok ((b + 1) % two_8 ∷ bz)

unfoldable pub start_formatted : Option Bytes → Result Bytes
unfolding fast_node_key
start_formatted none = key_bytes fast_key_format []
start_formatted (some start) = fast_node_key start

unfoldable pub end_formatted : Option Bytes → Result Bytes
unfolding fast_node_key increment_first
end_formatted none = do prefix ← key_bytes fast_key_format []; increment_first prefix
end_formatted (some end) = fast_node_key end

-- `bz[1:]`
unfoldable pub without_prefix : Bytes → Result Bytes
without_prefix [] = panic
without_prefix (b ∷ bz) = ok bz

unfoldable pub is_valid : FastIterator → Bool
is_valid iter = elim iter.fast_iterator [ none ↦ false | some i ↦ MemDb.valid i && iter.valid ]

-- `Key` and `Value`, nil where the iterator is not valid
unfoldable pub current_key : FastIterator → Result (Option Bytes)
current_key iter = if iter.valid then key_of iter.next_fast_node else ok none
  where
    key_of : Option FastNode → Result (Option Bytes)
    key_of none = panic
    key_of (some n) = ok (some n.key)

unfoldable pub current_value : FastIterator → Result (Option Bytes)
current_value iter = if iter.valid then value_of iter.next_fast_node else ok none
  where
    value_of : Option FastNode → Result (Option Bytes)
    value_of none = panic
    value_of (some n) = ok (some n.value)

-- what `DeserializeNode` gives for the current item
unfoldable pub set_fast_node : FastIterator → Result FastNode → Result FastIterator
set_fast_node iter (ok n) =
    ok (record iter { next_fast_node = some n; failure = none; valid = true })
set_fast_node iter (err e) =
    ok (record iter { next_fast_node = none; failure = some e; valid = false })
set_fast_node iter panic = panic
set_fast_node iter stuck = stuck

-- `Next`, from the test of validity on
unfoldable pub read_current : FastIterator → MemDbIterator → Result FastIterator
unfolding set_fast_node without_prefix
read_current iter i =
    if iter.valid && MemDb.valid i
    then (do
      db_key ← iterator_key i
      key ← without_prefix db_key
      value ← iterator_value i
      set_fast_node iter (deserialize_node key value))
    else ok (record iter { valid = false })

-- an end of the range of the database without its prefix, nil for the prefix alone
unfoldable pub unprefixed : Option Bytes → Result (Option Bytes)
unfolding without_prefix
unprefixed none = ok none
unprefixed (some bound) = do
  bound ← without_prefix bound
  if length bound == 0 then ok none else ok (some bound)

unfoldable pub domain : FastIterator → Result (Option Bytes × Option Bytes)
unfolding unprefixed
domain iter = elim (iter.fast_iterator) [
  | none ↦ ok (iter.start, iter.end)
  | some i ↦ do start ← unprefixed i.start; end ← unprefixed i.end; ok (start, end)
]

-- `Close`, which the iterator of the database in memory does without an error
unfoldable pub close : FastIterator → FastIterator
close iter = record iter {
  failure = elim (iter.fast_iterator) [ none ↦ iter.failure | some i ↦ none ];
  valid = false;
  fast_iterator = none;
}

module _ (B : BTree) where
  unfoldable pub get_fast_iterator :
      NodeDatabase B → Option Bytes → Option Bytes → Bool → Result MemDbIterator
  unfolding start_formatted end_formatted
  get_fast_iterator ndb start end ascending = do
    start ← start_formatted start
    end ← end_formatted end
    iterator B ndb.batch.db (some start) (some end) (not ascending)

  -- After an error of `getFastIterator` there is no iterator, and the next call panics.
  unfoldable pub opened : FastIterator → Result MemDbIterator → Result FastIterator
  unfolding read_current
  opened iter (ok i) =
      read_current (record iter { fast_iterator = some i; failure = none; valid = true }) i
  opened iter (err e) = panic
  opened iter panic = panic
  opened iter stuck = stuck

  unfoldable pub next : NodeDatabase B → FastIterator → Result FastIterator
  unfolding get_fast_iterator opened read_current
  next ndb iter = elim iter.fast_iterator [
    | none ↦ opened iter (get_fast_iterator ndb iter.start iter.end iter.ascending)
    | some i ↦ do i ← MemDb.next i; read_current (record iter { fast_iterator = some i }) i
  ]

  unfoldable pub new_fast_iterator :
      NodeDatabase B → Option Bytes → Option Bytes → Bool → Result FastIterator
  unfolding next
  new_fast_iterator ndb start end ascending = next ndb (record {
    start = start;
    end = end;
    valid = false;
    ascending = ascending;
    failure = none;
    next_fast_node = none;
    fast_iterator = none;
  })
