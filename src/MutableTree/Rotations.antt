-- ===== src/MutableTree/Rotations.antt =====
-- node.go: `clone` and `calcHeightAndSize` on nodes that stand for reference trees.
use iavl.Prelude.{
  suc, ◌+◌, ◌<◌, ◌≡◌, refl, ◌∙◌, true, false, is_some, ok, max, arith, Result, Bool-cases, inl, inr,
}
use mathlib.Core.Path.{ap₂}
use iavl.Prelude.Words.{two_63}
use iavl.Bytes.{Bytes}
use iavl.Avl.{Tree, inner, height, size}
use iavl.Node.{Node, node, Fields, NodeDb, child, is_leaf, clone, cloned, calc_height_and_size}
use iavl.Node.Represents.{Represents, at_inner, cached, child-Represents}

-- A step that ends with an unsaved inner node over two subtrees that are in memory.
pub record Makes (ndb : NodeDb) (res : Result Node) (k : Bytes) (l r : Tree) : Type 0 where
  pub f : Fields
  pub a : Node
  pub b : Node
  pub result : res ≡ ok (node f a b)
  pub key : f.key ≡ k
  pub is_inner : is_leaf f ≡ false
  pub unsaved : is_some f.node_key ≡ false
  pub left : Represents ndb l a
  pub right : Represents ndb r b

-- The same with the cached size and height right.
pub record Builds (ndb : NodeDb) (res : Result Node) (k : Bytes) (l r : Tree) : Type 0 where
  pub makes : Makes ndb res k l r
  pub open makes use *
  pub size_ok : makes.f.size ≡ size l + size r
  pub height_ok : makes.f.subtree_height ≡ suc (max (height l) (height r))

-- A step that ends with a node for a tree.
pub record Yields (ndb : NodeDb) (res : Result Node) (t : Tree) : Type 0 where
  pub n : Node
  pub result : res ≡ ok n
  pub rep : Represents ndb t n

-- Two subtrees whose common parent fits its machine words.
pub record Fits (l r : Tree) : Type 0 where
  pub sizes : size l + size r < two_63
  pub left_height : height l < 127
  pub right_height : height r < 127

module _ (ndb : NodeDb) where
  pub Builds-Yields :
      (res : Result Node) (k : Bytes) (l r : Tree)
      → Builds ndb res k l r
      → Yields ndb res (inner k l r)
  Builds-Yields res k l r d = record {
    n = node d.f d.a d.b;
    result = d.result;
    rep =
        at_inner d.key d.size_ok d.height_ok (λ _. refl) (λ _. refl)
          (child-Represents ndb l d.a d.f.left_node_key d.left)
          (child-Represents ndb r d.b d.f.right_node_key d.right) d.left d.right;
  }

  clone_saved :
      (f : Fields) (a b m n : Node)
      → is_leaf f ≡ false
      → is_some f.node_key ≡ true
      → child ndb a f.left_node_key ≡ ok m
      → child ndb b f.right_node_key ≡ ok n
      → clone ndb (node f a b) ≡ ok (node (cloned ndb f) m n)
  unfolding clone
  clone_saved f a b m n inn s ea eb = rw (inn, s, ea, eb)

  pub clone_unsaved :
      (f : Fields) (a b : Node)
      → is_leaf f ≡ false
      → is_some f.node_key ≡ false
      → clone ndb (node f a b) ≡ ok (node (cloned ndb f) a b)
  unfolding clone
  clone_unsaved f a b inn s = rw (inn, s)

  pub clone_lem :
      (k : Bytes) (l r : Tree) (n : Node)
      → Represents ndb (inner k l r) n
      → Builds ndb (clone ndb n) k l r
  clone_lem k l r n
        (at_inner {f = f} {a = a} {b = b} {m = m} {n = n'} e e_s e_h ma mb la lb rl rr) =
      let inn : is_leaf f ≡ false = ground arith in
      elim (Bool-cases (is_some f.node_key)) [
        | inl s ↦ record {
          makes = record {
            f = cloned ndb f;
            a = m;
            b = n';
            result = clone_saved f a b m n' inn s la lb;
            key = e;
            is_inner = inn;
            unsaved = refl;
            left = rl;
            right = rr;
          };
          size_ok = e_s;
          height_ok = e_h;
        }
        | inr s ↦ record {
          makes = record {
            f = cloned ndb f;
            a = m;
            b = n';
            result =
                clone_unsaved f a b inn s ∙ ap₂ (λ x y. ok (node (cloned ndb f) x y)) (ma s) (mb s);
            key = e;
            is_inner = inn;
            unsaved = refl;
            left = rl;
            right = rr;
          };
          size_ok = e_s;
          height_ok = e_h;
        }
      ]

  pub calc_lem :
      (f : Fields) (a b : Node) (k : Bytes) (l r : Tree)
      → f.key ≡ k
      → is_some f.node_key ≡ false
      → Represents ndb l a
      → Represents ndb r b
      → Fits l r
      → Builds ndb (calc_height_and_size ndb (node f a b)) k l r
  unfolding calc_height_and_size
  calc_lem f a b k l r e s rl rr fits =
      let c = cached ndb l a rl in
      let d = cached ndb r b rr in
      record {
        makes = record {
          f = record f { size = size l + size r; subtree_height = suc (max (height l) (height r)) };
          a = a;
          b = b;
          result = ground (
            arith,
            child-Represents ndb l a f.left_node_key rl,
            child-Represents ndb r b f.right_node_key rr,
            c.read,
            d.read,
            c.size_ok,
            d.size_ok,
            c.height_ok,
            d.height_ok,
          );
          key = e;
          is_inner = ground arith;
          unsaved = s;
          left = rl;
          right = rr;
        };
        size_ok = refl;
        height_ok = refl;
      }
