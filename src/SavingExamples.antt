-- ===== src/SavingExamples.antt =====
-- The theorem on the keys of new nodes at a concrete tree.
use iavl.Prelude.{ℕ, ◌≡◌, refl, none, some, ok, false, arith, [], ◌∷◌}
use iavl.Node.{nil, node, Fields, new_node}
use iavl.StorageKey.{get_root_key}
use iavl.MutableTree.Saving.{Assigned, recursive_assign_key, saved_key}
use iavl.MutableTree.Saving.Counts.{
  IsSavable, already_saved, new_leaf, new_inner, new_count, times, between,
}
use iavl.MutableTree.Saving.Numbers.{recursive_assign_key-Numbers}

-- an inner node over a leaf that was saved in the first version and a new leaf
abbrev saved_leaf : Fields
saved_leaf = record {
  key = 1 ∷ [];
  value = some (7 ∷ []);
  hash = some (9 ∷ []);
  node_key = some (record { version = 1; nonce = 1 });
  left_node_key = none;
  right_node_key = none;
  size = 1;
  subtree_height = 0;
  is_legacy = false;
}

abbrev new_root : Fields
new_root = record saved_leaf {
  key = 2 ∷ [];
  value = none;
  hash = none;
  node_key = none;
  size = 2;
  subtree_height = 1;
}

new_root-IsSavable :
    IsSavable (node new_root (node saved_leaf nil nil) (new_node (2 ∷ []) (8 ∷ [])))
unfolding new_node
new_root-IsSavable =
    new_inner refl refl (already_saved (record { version = 1; nonce = 1 }) refl)
      (new_leaf refl refl)

recursive_assign_key-Numbers_example :
    (r : Assigned) × (recursive_assign_key
        (λ bz. bz)
        2
        (node new_root (node saved_leaf nil nil) (new_node (2 ∷ []) (8 ∷ [])))
        0
        []
      ≡ ok r)
    × (r.key ≡ some (get_root_key 2))
    × (r.nonce ≡ new_count (node new_root (node saved_leaf nil nil) (new_node (2 ∷ []) (8 ∷ []))))
    × ((j : ℕ)
        → times 2 j r.new_nodes
          ≡ between 0
              (new_count (node new_root (node saved_leaf nil nil) (new_node (2 ∷ []) (8 ∷ []))))
              j)
unfolding new_count new_node
recursive_assign_key-Numbers_example =
    recursive_assign_key-Numbers (λ bz. bz) 2 new_root (node saved_leaf nil nil)
      (new_node (2 ∷ []) (8 ∷ [])) new_root-IsSavable refl (omega arith)

-- A leaf that was the root of a pruned version has the nonce 0 and is not in the old format; as a
-- child of a new root it is referred to by its hash, and not by the key under which it is stored.
saved_key-reformatted : saved_key saved_leaf (record { version = 1; nonce = 0 }) ≡ some (9 ∷ [])
unfolding saved_key
saved_key-reformatted = refl
