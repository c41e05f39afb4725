-- ===== src/MutableTree/Saving.antt =====
-- mutable_tree.go: `saveNewNodes`, which gives their keys to the new nodes and saves them, and the
-- version that is saved next.
pub mod Counts
pub mod Numbers
use iavl.Prelude.{
  ℕ, ◌+◌, ◌%◌, List, [], ◌∷◌, ◌++◌, Bool, true, false, not, Option, none, some, ◌==◌, if◌then◌else◌,
  ◌&&◌, Result, ok, panic, ◌>>=◌,
}
use iavl.Prelude.Words.{two_32, two_64, lt_int8}
use iavl.Bytes.{Bytes}
use iavl.Node.{NodeKey, Node, nil, node, Fields}
use iavl.StorageKey.{get_key}
use iavl.Hashing.{hash}
use iavl.MemDb.{BTree}
use iavl.NodeDatabase.{NodeDatabase, save_node}

-- `WorkingVersion`, of a tree of this version
unfoldable pub working_version : ℕ → ℕ → ℕ
working_version version initial_version =
    let next = (version + 1) % two_64 in
    if (next == 1) && not (initial_version == 0) then initial_version else next

-- `SetInitialVersion`
unfoldable pub set_initial_version : {B : BTree} → NodeDatabase B → ℕ → NodeDatabase B
set_initial_version ndb version = record ndb { initial_version = version }

-- What `recursiveAssignKey` leaves: the key that it returns, the node, the last nonce and the new
-- nodes, of which the closure keeps pointers.
pub record Assigned : Type 0 where
  pub key : Option Bytes
  pub root : Node
  pub nonce : ℕ
  pub new_nodes : List Node

-- a node that was saved before
unfoldable pub saved_key : Fields → NodeKey → Option Bytes
saved_key f nk = if not (nk.nonce == 0) then some (get_key nk) else f.hash

module _ (sum_256 : Bytes → Bytes) (version : ℕ) where
  abbrev assigned_key : ℕ → NodeKey
  assigned_key nonce = record { version = version; nonce = nonce }

  -- the hash, and the node in the list of the new ones
  unfoldable pub finish_assign : Fields → ℕ → Node → Node → ℕ → List Node → Assigned
  unfolding hash
  finish_assign f own a b nonce new_nodes =
      let n = node (hash sum_256 f a b version) a b in
      record {
        key = some (get_key (assigned_key own));
        root = n;
        nonce = nonce;
        new_nodes = new_nodes ++ n ∷ [];
      }

  unfoldable pub recursive_assign_key : Node → ℕ → List Node → Result Assigned
  unfolding saved_key finish_assign
  recursive_assign_key nil nonce new_nodes = panic
  recursive_assign_key (node f a b) nonce new_nodes = elim (f.node_key) [
    | some nk ↦
        ok
          (record { key = saved_key f nk; root = node f a b; nonce = nonce; new_nodes = new_nodes })
    | none ↦
        let own = (nonce + 1) % two_32 in
        let f = record f { node_key = some (assigned_key own) } in
        elim (lt_int8 0 f.subtree_height) [
          | true ↦ do
            left ← recursive_assign_key a own new_nodes
            right ← recursive_assign_key b left.nonce left.new_nodes
            let f = record f { left_node_key = left.key; right_node_key = right.key }
            ok (finish_assign f own left.root right.root right.nonce right.new_nodes)
          | false ↦ ok (finish_assign f own a b own new_nodes)
        ]
  ]

-- A node whose children are dropped after it was saved, also for the cache, which has its pointer.
unfoldable pub without_children : Node → Node
without_children nil = nil
without_children (node f a b) = node f nil nil

module _ (B : BTree) where
  unfoldable pub save_nodes : NodeDatabase B → List Node → Result (NodeDatabase B)
  unfolding without_children
  save_nodes ndb [] = ok ndb
  save_nodes ndb (n ∷ l) = do ndb ← save_node B ndb (without_children n); save_nodes ndb l

  -- The root is a new node.
  unfoldable pub save_new_nodes :
      (Bytes → Bytes) → NodeDatabase B → Node → ℕ → Result (Node × NodeDatabase B)
  unfolding recursive_assign_key save_nodes without_children
  save_new_nodes sum_256 ndb root version = do
    r ← recursive_assign_key sum_256 version root 0 []
    ndb ← save_nodes ndb r.new_nodes
    ok (without_children r.root, ndb)
