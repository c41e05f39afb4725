-- ===== src/MutableTree/Saving/Counts.antt =====
-- mutable_tree.go: the new nodes of a tree, and how often a key stands in a list of nodes.
use iavl.Prelude.{
  ℕ, suc, ◌+◌, ◌≡◌, refl, List, [], ◌∷◌, ◌++◌, Bool, true, false, not, ◌&&◌, Option, none, some,
  is_some, ltb, leb, ◌==◌, if◌then◌else◌, Result, ok, err, panic, stuck, arith,
}
use iavl.Prelude.Words.{lt_int8}
use iavl.Bytes.{Bytes}
use iavl.Node.{NodeKey, Node, nil, node, Fields}
use iavl.Hashing.{hash, set_hash, write_hash_bytes}

-- A node of a working tree: one that was saved, or a new one with the children in memory.
pub data IsSavable : Node → Type 0 where
  already_saved :
      {f : Fields} {a b : Node} (nk : NodeKey) → f.node_key ≡ some nk → IsSavable (node f a b)
  new_leaf :
      {f : Fields} {a b : Node}
      → f.node_key ≡ none
      → lt_int8 0 f.subtree_height ≡ false
      → IsSavable (node f a b)
  new_inner :
      {f : Fields} {a b : Node}
      → f.node_key ≡ none
      → lt_int8 0 f.subtree_height ≡ true
      → IsSavable a
      → IsSavable b
      → IsSavable (node f a b)

-- how many nodes are new
unfoldable pub new_count : Node → ℕ
new_count nil = 0
new_count (node f a b) = elim (f.node_key) [
  | some nk ↦ 0
  | none ↦ elim (lt_int8 0 f.subtree_height) [ false ↦ 1 | true ↦ suc (new_count a + new_count b) ]
]

abbrev pub is_new : Node → Bool
is_new nil = false
is_new (node f a b) = not (is_some f.node_key)

-- how many nodes of a list have the key of a version and a nonce
abbrev pub is_key : ℕ → ℕ → Option NodeKey → Bool
is_key version j none = false
is_key version j (some nk) = (nk.version == version) && (nk.nonce == j)

abbrev pub has_key : ℕ → ℕ → Node → Bool
has_key version j nil = false
has_key version j (node f a b) = is_key version j f.node_key

abbrev pub times : ℕ → ℕ → List Node → ℕ
times version j [] = 0
times version j (n ∷ l) = (if has_key version j n then 1 else 0) + times version j l

-- after the first nonce and up to the last one
abbrev pub between : ℕ → ℕ → ℕ → ℕ
between first last j = if ltb first j && leb j last then 1 else 0

pub times-append_last :
    (version j : ℕ) (l : List Node) (n : Node)
    → times version j (l ++ n ∷ []) ≡ times version j l + (if has_key version j n then 1 else 0)
times-append_last version j [] n = ground arith
times-append_last version j (x ∷ l) n = ground (arith, times-append_last version j l n)

pub set_hash-node_key :
    (sum_256 : Bytes → Bytes) (f : Fields) (r : Result Bytes)
    → (set_hash sum_256 f r).node_key ≡ f.node_key
unfolding set_hash
set_hash-node_key sum_256 f (ok w) = refl
set_hash-node_key sum_256 f (err e) = refl
set_hash-node_key sum_256 f panic = refl
set_hash-node_key sum_256 f stuck = refl

pub either_key :
    (b : Bool) (f g : Fields) → g.node_key ≡ f.node_key → (if b then f else g).node_key ≡ f.node_key
either_key true f g e = refl
either_key false f g e = e

pub hash-node_key :
    (sum_256 : Bytes → Bytes) (f : Fields) (a b : Node) (version : ℕ)
    → (hash sum_256 f a b version).node_key ≡ f.node_key
unfolding hash
hash-node_key sum_256 f a b version =
    either_key (is_some f.hash) f (set_hash sum_256 f (write_hash_bytes sum_256 f a b version))
      (set_hash-node_key sum_256 f (write_hash_bytes sum_256 f a b version))
