-- ===== src/Lib.antt =====
-- The IAVL tree of this repository: a versioned, balanced search tree of byte slices, whose nodes are
-- stored under their version and nonce in a key-value database, with the latest value of each key
-- also in a fast node beside the tree.
--
-- The parts and their files:
--   Prelude            what every file shares: lists, options, results, machine words, bits
--   Bytes              byte slices with `bytes.Compare`, and `sync.Map` as an association list
--   Encoding           internal/encoding/encoding.go: varints and length-prefixed byte slices
--   Cache              cache/cache.go: the LRU cache
--   MemDb              db/memdb.go: `MemDB` with its iterators and batches; batch.go:
--                      `BatchWithFlusher`
--   FastNode           fastnode/fast_node.go: the fast node and the bytes under which it is stored
--   Node               node.go: the node, `clone`, `calcHeightAndSize`, `calcBalance`, `has`, `get`,
--                      `getByIndex`, `getLeftNode`, `getRightNode`
--   StorageKey         node.go: `GetKey`, `GetNodeKey`, `GetRootKey`
--   NodeStore          node.go: `writeBytes`, `encodedSize`, `MakeNode`
--   KeyFormat          keyformat/key_format.go: `NewKeyFormat`, `KeyBytes`, `ScanBytes`
--   KeyValues          keyformat/key_format.go: `Key` and `Scan` with `format` and `scan`
--   PrefixFormatter    keyformat/prefix_formatter.go
--   Increment          internal/bytes/bytes.go: `CpIncr`
--   ImmutableTree      immutable_tree.go: `Size`, `Height`, `Has`, `GetWithIndex`, `Get`, `GetByIndex`
--   NodeDatabase       nodedb.go: the nodes, the fast nodes, the roots of versions, the first and the
--                      latest version, the commit; mutable_tree.go: `VersionExists`
--   Iterator           iterator.go: `Iterator`; `NodeIterator` stands in NodeDatabase/NodeIterator
--   FastIterator       fast_iterator.go; nodedb.go: `getFastIterator`
--   UnsavedFastIterator  unsaved_fast_iterator.go: the merge of saved and unsaved fast nodes
--   Hashing            node.go: `_hash`, `hashWithCount`, `writeHashBytes`
--   Traversal          iterator.go: `traversal` and its `next`; node.go: `traverseInRange`;
--                      immutable_tree.go: `IterateRange`
--   Compress           compress.go: `CompressExporter.Next`, `CompressImporter.Add`, `deltaEncode`,
--                      `deltaDecode`
--   Rebalance          mutable_tree.go: `rotateLeft`, `rotateRight`, `balance`
--   MutableTree        mutable_tree.go: `Set`, `Remove`, `Get`, `Rollback`, and the maps of unsaved fast
--                      nodes; in FastSave how these are written, in Saving `saveNewNodes`, in
--                      SaveVersion `SaveVersion` with `WorkingHash`
--   Avl                the reference: trees without pointers, caches or a database, with insertion
--                      and removal, their sorted entries, their order and their balance
--   Directions         lists of entries in ascending or descending order
--   Examples, EncodingExamples, StorageExamples, KeyExamples, StoreExamples, DatabaseExamples,
--   IteratorExamples, SavingExamples   concrete trees, bytes, nodes, keys and databases
--
-- How they fit together. A `*Node` of the code is `nil` or a node with its fields and the children
-- that are in memory; a child that is not is loaded by its key through `NodeDb`, which stands for
-- nodedb.go and may fail. `Node/Represents` relates a node, with what it loads, to a reference tree.
-- `MutableTree/Rotations` to `MutableTree/Removal` compare each step of the code on nodes with what
-- the reference does to trees. `Avl` compares the reference with the sorted entries, and
-- `ImmutableTree/Reads` and `MutableTree/Contract` put the two together. `MutableTree/FastStorage`
-- relates the unsaved and the saved fast nodes to the entries, and `MutableTree/Session` runs sets
-- and removals one after the other; `MutableTree/Rollback` rolls such a session back.
-- `Traversal/Steps` relates the stack of a traversal to the entries that it has still to visit.
--
-- The node database stands on the database in memory, and this on google/btree, which is the record
-- `BTree` of operations with their laws; `StoreExamples` fills it with a sorted list.
-- `MemDb/Flushing` says what the database holds once the pending changes are written, `Cache/Methods`
-- keeps the invariant of the cache, and `NodeDatabase/Saved` and `NodeDatabase/FastReads` put the two
-- together: the fast nodes that are found. `MutableTree/FastSave` saves the unsaved fast nodes through
-- them, and `UnsavedFastIterator/Collected` iterates over both. The trees still read through `NodeDb`:
-- that `NodeDatabase` fills it is not shown. `SaveVersion` is defined on both; theorems stand for its
-- parts.
--
-- Conventions. A method that changes its receiver returns the new state. `Result` has the values
-- that Go returns, its errors, its panics, and `stuck` for a recursion without fuel. `int64` and
-- `int8` values are bit patterns, with the wrap-around of additions written out, and `int` has 64
-- bits. Recursion down a tree has 128 steps of fuel (`depth_limit`), since a loaded child is not a
-- part of its parent; a balanced tree with fewer than 2 ^ 63 entries is lower than that
-- (`ImmutableTree/Reads`, `within_limit`), so that no theorem rests on running out. A traversal takes
-- its fuel as an argument, and twice the number of entries is enough
-- (`Traversal/Iterations`). SHA-256 is a parameter of `NodeStore`.
--
-- Theorems that a bound on the fuel is enough stand in `NodeDatabase/Search`: 64 rounds for the first
-- version, where the sum of the latest version and the first one is below 2 ^ 63 (beyond that the sum
-- wraps, and in a run in `DatabaseExamples` 64 rounds find nothing); in `MemDb/Iterations`: two more
-- than the entries that are still to be received; in `UnsavedFastIterator/Collected`: one more than the
-- saved and the added fast nodes. There is no such theorem yet on `next` of `Iterator`, nor on the
-- traversals of `NodeDatabase/Upkeep`.
--
-- `sort.Strings` and `sort.Slice` are insertion sorts; distinct strings have one order only.
--
-- Not modelled: the loading and the pruning of versions, the exporter and the importer, diff.go, the
-- proofs, `validate`, the commands, the adapters of other databases, and the separate module v2. Two
-- goroutines at work on one tree, and what a failed write leaves in a buffer, are not modelled either.
pub mod Prelude
pub mod Bytes
pub mod Increment
pub mod Encoding
pub mod Avl
pub mod Node
pub mod StorageKey
pub mod NodeStore
pub mod KeyFormat
pub mod PrefixFormatter
pub mod KeyValues
pub mod FastNode
pub mod ImmutableTree
pub mod Traversal
pub mod Directions
pub mod Cache
pub mod MemDb
pub mod NodeDatabase
pub mod Compress
pub mod Rebalance
pub mod MutableTree
pub mod Examples
pub mod EncodingExamples
pub mod StorageExamples
pub mod KeyExamples
pub mod FastIterator
pub mod UnsavedFastIterator
pub mod Hashing
pub mod SavingExamples
pub mod Iterator
pub mod StoreExamples
pub mod IteratorExamples
pub mod DatabaseExamples
