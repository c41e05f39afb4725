-- ===== src/MutableTree/FastSave/Looks.antt =====
-- mutable_tree.go: which fast nodes are found after the saves of `saveFastNodeVersion`.
use iavl.Prelude.{
  ◌≡◌, refl, sym, ap, subst, ◌∙◌, List, [], ◌∷◌, Bool, true, false, ◌||◌, Option, none, some,
  is_some, if◌then◌else◌, Result, ok, ◌>>=◌, arith, Bool-cases, inl, inr, Option-cases,
}
use iavl.Bytes.{Bytes, equal_bytes}
use iavl.Bytes.Map.{load}
use iavl.FastNode.{FastNode}
use iavl.Cache.Recency.{eq_of_equal, equal_refl}
use iavl.MemDb.{BTree}
use iavl.NodeDatabase.{NodeDatabase, delete_fast_node}
use iavl.NodeDatabase.Saved.{
  Saves, Saved, Fits, with_node, without_key, save_fast_node_unlocked-Saved, delete_fast_node-Saved,
}
use iavl.MutableTree.FastSave.{
  insert_string, sort_strings, keys_of, save_loaded, save_additions, save_removals,
}

abbrev pub member : Bytes → List Bytes → Bool
member k [] = false
member k (j ∷ l) = equal_bytes k j || member k l

member-insert_string :
    (k s : Bytes) (l : List Bytes) → member k (insert_string s l) ≡ (equal_bytes k s || member k l)
unfolding insert_string
member-insert_string k s [] = refl
member-insert_string k s (t ∷ l) = ground (arith, member-insert_string k s l)

pub member-sort_strings : (k : Bytes) (l : List Bytes) → member k (sort_strings l) ≡ member k l
unfolding sort_strings
member-sort_strings k [] = refl
member-sort_strings k (s ∷ l) =
    member-insert_string k s (sort_strings l)
    ∙ ap (λ b. equal_bytes k s || b) (member-sort_strings k l)

pub member-keys_of {ℓ} :
    {V : Type ℓ} (k : Bytes) (m : List (Bytes × V)) → member k (keys_of m) ≡ is_some (load k m)
unfolding load
member-keys_of k [] = refl
member-keys_of k (e ∷ m) = elim (Bool-cases (equal_bytes k e.0)) [
  | inl c ↦ rw c refl
  | inr c ↦ rw c (member-keys_of k m)
]

-- what is found after the additions at some keys, and after the removals
abbrev pub after_additions :
    List (Bytes × FastNode) → List Bytes → (Bytes → Option FastNode) → Bytes → Option FastNode
after_additions additions keys look k = if member k keys then load k additions else look k

abbrev pub after_removals : List Bytes → (Bytes → Option FastNode) → Bytes → Option FastNode
after_removals keys look k = if member k keys then none else look k

-- The additions have the keys of their nodes, which fit.
abbrev pub AllFit : List (Bytes × FastNode) → Type 0
AllFit additions = (k : Bytes) (n : FastNode) → load k additions ≡ some n → Fits n × (n.key ≡ k)

-- one addition more, and one removal more
same_branches {ℓ} : {A : Type ℓ} (b : Bool) (a : A) → (if b then a else a) ≡ a
same_branches true a = refl
same_branches false a = refl

added_look :
    (look : Bytes → Option FastNode) (additions : List (Bytes × FastNode)) (n : FastNode)
    (j : Bytes) (keys : List Bytes) (k : Bytes)
    → load j additions ≡ some n
    → n.key ≡ j
    → after_additions additions keys (with_node look n) k
      ≡ after_additions additions (j ∷ keys) look k
added_look look additions n j keys k e at = elim (Bool-cases (equal_bytes k j)) [
  | inl c ↦
      let there : load k additions ≡ some n =
        subst (λ x. load x additions ≡ some n) (sym (eq_of_equal k j c)) e in
      rw (subst (λ x. equal_bytes k x ≡ true) (sym at) c, c, there)
        (same_branches (member k keys) (some n))
  | inr c ↦ rw (subst (λ x. equal_bytes k x ≡ false) (sym at) c, c) refl
]

removed_look :
    (look : Bytes → Option FastNode) (j : Bytes) (keys : List Bytes) (k : Bytes)
    → after_removals keys (without_key look j) k ≡ after_removals (j ∷ keys) look k
removed_look look j keys k = ground arith

module _ (B : BTree) where
  open B use {Items}

  Saves-same :
      (ndb : NodeDatabase B) (db : Items) (look other : Bytes → Option FastNode)
      → ((k : Bytes) → look k ≡ other k)
      → Saves B ndb db look
      → Saves B ndb db other
  Saves-same ndb db look other e h =
      let same : look ≡ other = λ i k. e k i in subst (Saves B ndb db) same h

  -- Some database has what is pending.
  pub record Done (ndb : NodeDatabase B) (r : Result (NodeDatabase B))
      (look : Bytes → Option FastNode) : Type 0 where
    pub db : Items
    pub saved : Saved B ndb r db look

  missing : {V : Type 0} (o : Option V) → is_some o ≡ true → o ≡ none → ⊥
  missing o p q = cc

  -- two steps, the second of which goes on from the state after the first
  Done-after :
      {r : Result (NodeDatabase B)} {db : Items} {look middle other : Bytes → Option FastNode}
      (ndb : NodeDatabase B) (s : Result (NodeDatabase B))
      (next : NodeDatabase B → Result (NodeDatabase B)) (first : Saved B ndb r db middle)
      → Done first.after (next first.after) look
      → s ≡ ok first.after
      → ((k : Bytes) → look k ≡ other k)
      → Done ndb (s >>= next) other
  Done-after {other = other} ndb s next first rest e same = record {
    db = rest.db;
    saved = record {
      after = rest.saved.after;
      returned = rw e rest.saved.returned;
      saves = Saves-same rest.saved.after rest.db _ other same rest.saved.saves;
      same_version = rest.saved.same_version ∙ first.same_version;
    };
  }

  pub save_additions-Done :
      (ndb : NodeDatabase B) (db : Items) (look : Bytes → Option FastNode)
      (additions : List (Bytes × FastNode)) (keys : List Bytes)
      → AllFit additions
      → ((k : Bytes) → member k keys ≡ true → is_some (load k additions) ≡ true)
      → Saves B ndb db look
      → Done ndb (save_additions B ndb additions keys) (after_additions additions keys look)
  unfolding save_additions save_loaded
  save_additions-Done ndb db look additions [] fit there h = record {
    db = db;
    saved = record { after = ndb; returned = refl; saves = h; same_version = refl };
  }
  save_additions-Done ndb db look additions (j ∷ keys) fit there h =
      elim (Option-cases (load j additions)) [
        | inl e ↦ absurd (missing (load j additions) (there j (rw (equal_refl j) refl)) e)
        | inr (n, e) ↦
            let (fits, at) = fit j n e in
            let first = save_fast_node_unlocked-Saved B ndb db look n fits h in
            let rest =
              save_additions-Done first.after _ (with_node look n) additions keys fit
                (λ k q. there k (ground arith)) first.saves in
            Done-after ndb (save_loaded B ndb (load j additions))
              (λ x. save_additions B x additions keys) first rest (rw e first.returned)
              (λ k. added_look look additions n j keys k e at)
      ]

  pub save_removals-Done :
      (ndb : NodeDatabase B) (db : Items) (look : Bytes → Option FastNode) (keys : List Bytes)
      → Saves B ndb db look
      → Done ndb (save_removals B ndb keys) (after_removals keys look)
  unfolding save_removals
  save_removals-Done ndb db look [] h = record {
    db = db;
    saved = record { after = ndb; returned = refl; saves = h; same_version = refl };
  }
  save_removals-Done ndb db look (j ∷ keys) h =
      let first = delete_fast_node-Saved B ndb db look j h in
      let rest = save_removals-Done first.after _ (without_key look j) keys first.saves in
      Done-after ndb (delete_fast_node B ndb j) (λ x. save_removals B x keys) first rest
        first.returned (λ k. removed_look look j keys k)
