-- ===== src/MutableTree/Saving/Numbers.antt =====
-- mutable_tree.go: the keys that `saveNewNodes` gives to the new nodes.
use iavl.Prelude.{
  ℕ, suc, ◌+◌, ◌%◌, ◌<◌, ◌≡◌, refl, sym, ap, ◌∙◌, List, [], Bool, true, false, not, Option, none,
  some, is_some, ◌==◌, if◌then◌else◌, Result, ok, arith,
}
use iavl.Prelude.Words.{two_32, lt_int8}
use iavl.Bytes.{Bytes}
use iavl.Node.{NodeKey, Node, node, Fields}
use iavl.StorageKey.{get_key, get_root_key, put_big_endian}
use iavl.Hashing.{hash}
use iavl.MutableTree.Saving.{Assigned, finish_assign, recursive_assign_key}
use iavl.MutableTree.Saving.Counts.{
  IsSavable, already_saved, new_leaf, new_inner, new_count, is_new, is_key, times, between,
  times-append_last, hash-node_key,
}

module _ (sum_256 : Bytes → Bytes) (version : ℕ) where
  record Given (r : Result Assigned) (nonce count : ℕ) (new_nodes : List Node) (is_new : Bool)
      : Type 0 where
    pub after : Assigned
    pub returned : r ≡ ok after
    pub last : after.nonce ≡ nonce + count
    pub each :
        (j : ℕ)
        → times version j after.new_nodes
          ≡ times version j new_nodes + between nonce (nonce + count) j
    pub own :
        is_new ≡ true
        → after.key ≡ some (get_key (record { version = version; nonce = (nonce + 1) % two_32 }))

  -- the last step, for a node of this key
  finish_each :
      (f : Fields) (a b : Node) (own last : ℕ) (new_nodes : List Node) (j : ℕ)
      → f.node_key ≡ some (record { version = version; nonce = own })
      → times version j (finish_assign sum_256 version f own a b last new_nodes).new_nodes
        ≡ times version j new_nodes + (if own == j then 1 else 0)
  unfolding finish_assign
  finish_each f a b own last new_nodes j e =
      times-append_last version j new_nodes (node (hash sum_256 f a b version) a b)
      ∙ ap (λ k. times version j new_nodes + (if is_key version j k then 1 else 0))
          (hash-node_key sum_256 f a b version ∙ e)
      ∙ ground arith

  abbrev key_with : ℕ → Option NodeKey
  key_with own = some (record { version = version; nonce = own })

  -- the three forms of a call
  saved_step :
      (f : Fields) (a b : Node) (nk : NodeKey) (nonce : ℕ) (new_nodes : List Node)
      → f.node_key ≡ some nk
      → (key : Option Bytes) × (root : Node) × (recursive_assign_key sum_256 version
            (node f a b)
            nonce
            new_nodes
          ≡ ok (record { key = key; root = root; nonce = nonce; new_nodes = new_nodes }))
  unfolding recursive_assign_key
  saved_step f a b nk nonce new_nodes e = rw e (_, _, refl)

  leaf_step :
      (f : Fields) (a b : Node) (nonce : ℕ) (new_nodes : List Node)
      → f.node_key ≡ none
      → lt_int8 0 f.subtree_height ≡ false
      → recursive_assign_key sum_256 version (node f a b) nonce new_nodes
        ≡ ok (
            finish_assign sum_256 version
              (record f { node_key = key_with ((nonce + 1) % two_32) })
              ((nonce + 1) % two_32)
              a
              b
              ((nonce + 1) % two_32)
              new_nodes)
  unfolding recursive_assign_key
  leaf_step f a b nonce new_nodes e h = rw (e, h) refl

  inner_step :
      (f : Fields) (a b : Node) (nonce : ℕ) (new_nodes : List Node) (left right : Assigned)
      → f.node_key ≡ none
      → lt_int8 0 f.subtree_height ≡ true
      → recursive_assign_key sum_256 version a ((nonce + 1) % two_32) new_nodes ≡ ok left
      → recursive_assign_key sum_256 version b left.nonce left.new_nodes ≡ ok right
      → recursive_assign_key sum_256 version (node f a b) nonce new_nodes
        ≡ ok (
            finish_assign sum_256 version
              (record f {
                node_key = key_with ((nonce + 1) % two_32);
                left_node_key = left.key;
                right_node_key = right.key;
              })
              ((nonce + 1) % two_32)
              left.root
              right.root
              right.nonce
              right.new_nodes)
  unfolding recursive_assign_key
  inner_step f a b nonce new_nodes left right e h p q =
      rw (recursive_assign_key, e, h, p) (rw q refl)

  no_count :
      (f : Fields) (a b : Node) (nk : NodeKey) → f.node_key ≡ some nk → new_count (node f a b) ≡ 0
  unfolding new_count
  no_count f a b nk e = rw e refl

  leaf_count :
      (f : Fields) (a b : Node)
      → f.node_key ≡ none
      → lt_int8 0 f.subtree_height ≡ false
      → new_count (node f a b) ≡ 1
  unfolding new_count
  leaf_count f a b e h = rw (e, h) refl

  inner_count :
      (f : Fields) (a b : Node)
      → f.node_key ≡ none
      → lt_int8 0 f.subtree_height ≡ true
      → new_count (node f a b) ≡ suc (new_count a + new_count b)
  unfolding new_count
  inner_count f a b e h = rw (e, h) refl

  -- a number after the first one, and the ranges of the two children behind it
  between_inner :
      (nonce own left j count_a count_b count : ℕ)
      → count ≡ suc (count_a + count_b)
      → own ≡ nonce + 1
      → left ≡ own + count_a
      → between own (own + count_a) j
          + between left (left + count_b) j
          + (if own == j then 1 else 0)
        ≡ between nonce (nonce + count) j
  between_inner nonce own left j count_a count_b count c o l = ground arith

  regroup : (t x y z : ℕ) → t + x + y + z ≡ t + (x + y + z)
  regroup t x y z = omega arith

  finished_own :
      (f : Fields) (a b : Node) (own last : ℕ) (new_nodes : List Node)
      → (finish_assign sum_256 version f own a b last new_nodes).key
        ≡ some (get_key (record { version = version; nonce = own }))
  unfolding finish_assign
  finished_own f a b own last new_nodes = refl

  finished_nonce :
      (f : Fields) (a b : Node) (own last : ℕ) (new_nodes : List Node)
      → (finish_assign sum_256 version f own a b last new_nodes).nonce ≡ last
  unfolding finish_assign
  finished_nonce f a b own last new_nodes = refl

  saved_Given :
      (f : Fields) (a b : Node) (nk : NodeKey) (nonce : ℕ) (new_nodes : List Node)
      → f.node_key ≡ some nk
      → Given
          (recursive_assign_key sum_256 version (node f a b) nonce new_nodes)
          nonce
          (new_count (node f a b))
          new_nodes
          (is_new (node f a b))
  saved_Given f a b nk nonce new_nodes e =
      let (key, root, r) = saved_step f a b nk nonce new_nodes e in
      let none_new : new_count (node f a b) ≡ 0 = no_count f a b nk e in
      record {
        after = record { key = key; root = root; nonce = nonce; new_nodes = new_nodes };
        returned = r;
        last = rw none_new (ground arith);
        each = λ j. rw none_new (ground arith);
        own = λ q. absurd (not_new (ap is_some e) q);
      }
    where
      not_new : {b : Bool} → b ≡ true → not b ≡ true → ⊥
      not_new {b} e q = ground arith

  assign-Given :
      (n : Node) (nonce : ℕ) (new_nodes : List Node)
      → IsSavable n
      → nonce + new_count n < two_32
      → Given
          (recursive_assign_key sum_256 version n nonce new_nodes)
          nonce
          (new_count n)
          new_nodes
          (is_new n)
  assign-Given n nonce new_nodes (already_saved {f = f} {a = a} {b = b} nk e) l =
      saved_Given f a b nk nonce new_nodes e
  assign-Given n nonce new_nodes (new_leaf {f = f} {a = a} {b = b} e h) l =
      let own = (nonce + 1) % two_32 in
      let one : new_count (node f a b) ≡ 1 = leaf_count f a b e h in
      let small : own ≡ nonce + 1 = ground arith in
      let f' : Fields = record f { node_key = key_with own } in
      record {
        after = finish_assign sum_256 version f' own a b own new_nodes;
        returned = leaf_step f a b nonce new_nodes e h;
        last = finished_nonce f' a b own own new_nodes ∙ small ∙ ap (λ c. nonce + c) (sym one);
        each = λ j. finish_each f' a b own own new_nodes j refl ∙ rw (one, small) (ground arith);
        own = λ q. finished_own f' a b own own new_nodes;
      }
  assign-Given n nonce new_nodes (new_inner {f = f} {a = a} {b = b} e h sa sb) l =
      let own = (nonce + 1) % two_32 in
      let count : new_count (node f a b) ≡ suc (new_count a + new_count b) =
        inner_count f a b e h in
      let small : own ≡ nonce + 1 = ground arith in
      let left = assign-Given a own new_nodes sa (omega arith) in
      let right =
        assign-Given b left.after.nonce left.after.new_nodes sb (omega (arith, left.last)) in
      let f' : Fields = record f {
        node_key = key_with own;
        left_node_key = left.after.key;
        right_node_key = right.after.key;
      } in
      record {
        after =
            finish_assign sum_256 version f' own left.after.root right.after.root right.after.nonce
              right.after.new_nodes;
        returned =
            inner_step f a b nonce new_nodes left.after right.after e h left.returned
              right.returned;
        last =
            finished_nonce f' left.after.root right.after.root own right.after.nonce
              right.after.new_nodes
            ∙ omega (arith, left.last, right.last);
        each = λ j.
            finish_each f' left.after.root right.after.root own right.after.nonce
              right.after.new_nodes j refl
            ∙ ap (λ t. t + (if own == j then 1 else 0))
                (right.each j
                  ∙ ap (λ t. t + between left.after.nonce (left.after.nonce + new_count b) j)
                      (left.each j))
            ∙ regroup (times version j new_nodes) (between own (own + new_count a) j)
                (between left.after.nonce (left.after.nonce + new_count b) j)
                (if own == j then 1 else 0)
            ∙ ap (λ t. times version j new_nodes + t)
                (between_inner nonce own left.after.nonce j (new_count a) (new_count b)
                  (new_count (node f a b)) count small left.last);
        own = λ q.
            finished_own f' left.after.root right.after.root own right.after.nonce
              right.after.new_nodes;
      }

  from_zero : (c j : ℕ) → 0 + between 0 (0 + c) j ≡ between 0 c j
  from_zero c j = ground arith

  root_key : some (get_key (record { version = version; nonce = 1 })) ≡ some (get_root_key version)
  unfolding get_key get_root_key put_big_endian
  root_key = refl

  -- From a root that is new, where the new nodes have their children in memory and are fewer than
  -- 2 ^ 32: the new root gets the key of version and nonce 1, under which `GetRoot` looks for it,
  -- and of the nodes that are saved, exactly one has the key of the version and of each nonce from 1
  -- to the number of new nodes, and none has a larger nonce or 0.
  pub recursive_assign_key-Numbers :
      (f : Fields) (a b : Node)
      → IsSavable (node f a b)
      → f.node_key ≡ none
      → new_count (node f a b) < two_32
      → (r : Assigned) × (recursive_assign_key sum_256 version (node f a b) 0 [] ≡ ok r)
        × (r.key ≡ some (get_root_key version))
        × (r.nonce ≡ new_count (node f a b))
        × ((j : ℕ) → times version j r.new_nodes ≡ between 0 (new_count (node f a b)) j)
  recursive_assign_key-Numbers f a b s e l =
      let g = assign-Given (node f a b) 0 [] s (omega arith) in
      (
        g.after,
        g.returned,
        g.own (ap (λ k. not (is_some k)) e) ∙ root_key,
        g.last ∙ omega arith,
        λ j. g.each j ∙ from_zero (new_count (node f a b)) j,
      )
