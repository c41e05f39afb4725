-- ===== src/Node/Represents.antt =====
-- When a node stands for a tree: its subtrees are in memory or under its child keys, and the key,
-- the size and the height that it caches are those of the tree.
use iavl.Prelude.{suc, ◌+◌, ◌≡◌, refl, false, Option, some, is_some, ok, max}
use iavl.Bytes.{Bytes}
use iavl.Avl.{Tree, leaf, inner, height, size}
use iavl.Node.{Node, nil, node, Fields, NodeDb, fields, child, new_node}

pub data Represents (ndb : NodeDb) : Tree → Node → Type 0 where
  at_leaf :
      {f : Fields} {k v : Bytes}
      → f.key ≡ k
      → f.value ≡ some v
      → f.size ≡ 1
      → f.subtree_height ≡ 0
      → Represents ndb (leaf k v) (node f nil nil)
  at_inner :
      {f : Fields} {k : Bytes} {l r : Tree} {a b m n : Node}
      → f.key ≡ k
      → f.size ≡ size l + size r
      → f.subtree_height ≡ suc (max (height l) (height r))
      → (is_some f.node_key ≡ false → a ≡ m)
      → (is_some f.node_key ≡ false → b ≡ n)
      → child ndb a f.left_node_key ≡ ok m
      → child ndb b f.right_node_key ≡ ok n
      → Represents ndb l m
      → Represents ndb r n
      → Represents ndb (inner k l r) (node f a b)

abbrev pub root_key : Tree → Bytes
root_key (leaf k v) = k
root_key (inner k l r) = k

module _ (ndb : NodeDb) where
  pub record Cached (t : Tree) (n : Node) : Type 0 where
    pub f : Fields
    pub read : fields n ≡ ok f
    pub key : f.key ≡ root_key t
    pub size_ok : f.size ≡ size t
    pub height_ok : f.subtree_height ≡ height t

  pub cached : (t : Tree) (n : Node) → Represents ndb t n → Cached t n
  cached t n (at_leaf {f = f} e v s h) = record {
    f = f;
    read = refl;
    key = e;
    size_ok = s;
    height_ok = h;
  }
  cached t n (at_inner {f = f} e s h ma mb la lb rl rr) = record {
    f = f;
    read = refl;
    key = e;
    size_ok = s;
    height_ok = h;
  }

  -- A represented child in memory is found whatever the key says.
  pub child-Represents :
      (t : Tree) (n : Node) (key : Option Bytes) → Represents ndb t n → child ndb n key ≡ ok n
  child-Represents t n key (at_leaf e v s h) = refl
  child-Represents t n key (at_inner e s h ma mb la lb rl rr) = refl

  pub new_node-Represents : (k v : Bytes) → Represents ndb (leaf k v) (new_node k v)
  unfolding new_node
  new_node-Represents k v = at_leaf refl refl refl refl
