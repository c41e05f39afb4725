-- ===== src/MutableTree/FastSave.antt =====
-- mutable_tree.go: how `SaveVersion` writes the unsaved fast nodes, in the order of their keys.
-- `sort.Strings` is an insertion sort here: distinct strings have one order only.
pub mod Looks
pub mod Commits
use iavl.Prelude.{
  ℕ, true, List, [], ◌∷◌, Bool, Option, none, some, if◌then◌else◌, Result, ok, panic, ◌>>=◌,
}
use iavl.Bytes.{Bytes, lt_bytes}
use iavl.Bytes.Map
use iavl.FastNode.{FastNode}
use iavl.MemDb.{BTree}
use iavl.NodeDatabase.{
  NodeDatabase, save_fast_node_unlocked, delete_fast_node, set_fast_storage_version_to_batch,
}

unfoldable pub insert_string : Bytes → List Bytes → List Bytes
insert_string s [] = s ∷ []
insert_string s (t ∷ l) =
    let rest = insert_string s l in if lt_bytes t s then t ∷ rest else s ∷ t ∷ l

unfoldable pub sort_strings : List Bytes → List Bytes
unfolding insert_string
sort_strings [] = []
sort_strings (s ∷ l) = insert_string s (sort_strings l)

-- the keys that `Range` visits
abbrev pub keys_of {ℓ} : {V : Type ℓ} → List (Bytes × V) → List Bytes
keys_of [] = []
keys_of (e ∷ m) = e.0 ∷ keys_of m

module _ (B : BTree) where
  -- `val.(*fastnode.Node)` panics on a missing value.
  unfoldable pub save_loaded : NodeDatabase B → Option FastNode → Result (NodeDatabase B)
  save_loaded ndb none = panic
  save_loaded ndb (some n) = save_fast_node_unlocked B ndb n true

  unfoldable pub save_additions :
      NodeDatabase B → List (Bytes × FastNode) → List Bytes → Result (NodeDatabase B)
  unfolding save_loaded
  save_additions ndb additions [] = ok ndb
  save_additions ndb additions (key ∷ keys) = do
    ndb ← save_loaded ndb (Map.load key additions)
    save_additions ndb additions keys

  unfoldable pub save_removals : NodeDatabase B → List Bytes → Result (NodeDatabase B)
  save_removals ndb [] = ok ndb
  save_removals ndb (key ∷ keys) = do ndb ← delete_fast_node B ndb key; save_removals ndb keys

  unfoldable pub save_fast_node_version :
      NodeDatabase B → List (Bytes × FastNode) → List (Bytes × Bool) → ℕ → Result (NodeDatabase B)
  unfolding sort_strings save_additions save_removals
  save_fast_node_version ndb additions removals latest_version = do
    ndb ← save_additions ndb additions (sort_strings (keys_of additions))
    ndb ← save_removals ndb (sort_strings (keys_of removals))
    set_fast_storage_version_to_batch B ndb latest_version
