-- ===== src/Cache/Methods.antt =====
-- cache/cache.go: the methods of the cache, on the nodes that it holds, the latest first.
use iavl.Prelude.{
  ℕ, suc, ◌<◌, ◌≡◌, refl, sym, ap, subst, ◌∙◌, true, Option, none, some, List, [], ◌∷◌, All,
  All-imp, ◌==◌, ltb, if◌then◌else◌, length, Result, ok, ◌>>=◌, arith, Bool-cases, Option-cases,
  inl, inr,
}
use iavl.Bytes.{Bytes, equal_bytes}
use iavl.Bytes.Map.{load, store, delete, load-delete, load-store}
use iavl.Cache.{
  read, LruCache, value_of, unlink, move_to_front, set_value, back, get, add, evict, remove_key,
  remove_element, remove_with_key,
}
use iavl.Cache.Recency.{
  eq_of_equal, equal_refl, equal_sym, find, without, element_of, nodes, Apart, IsDistinct, hit,
  miss, Hit, Apart-new, element_of-unlink, All-unlink, unlink-IsDistinct, Apart-id, Apart-key,
}

-- the last of a list, and the others
unfoldable pub last {ℓ} : {N : Type ℓ} → List N → Option N
last [] = none
last (n ∷ []) = some n
last (n ∷ m ∷ l) = last (m ∷ l)

unfoldable pub front {ℓ} : {N : Type ℓ} → List N → List N
front [] = []
front (n ∷ []) = []
front (n ∷ m ∷ l) = n ∷ front (m ∷ l)

module _ {ℓ} {N : Type ℓ} (get_key : N → Bytes) where
  -- A read makes its node the latest.
  unfoldable pub touched : Bytes → List N → List N
  touched k l = elim (find get_key k l) [ none ↦ l | some n ↦ n ∷ without get_key k l ]

  -- What `Add` returns, and what it leaves of the nodes: the one that it replaces, or else the
  -- oldest one, if there is one too many.
  unfoldable pub added : ℕ → N → List N → Option N × List N
  added max n l = elim (find get_key (get_key n) l) [
    | some old ↦ (some old, n ∷ without get_key (get_key n) l)
    | none ↦ if ltb max (suc (length l)) then (last (n ∷ l), front (n ∷ l)) else (none, n ∷ l)
  ]

  -- The invariant: the map has the keys of the list and no others, each with its element.
  pub record IsCache (c : LruCache N) : Type ℓ where
    pub indexed : (k : Bytes) → load k c.dict ≡ element_of get_key k c.ll
    pub distinct : IsDistinct get_key c.ll
    pub fresh : All (λ x. x.0 < c.next_element) c.ll

  fresh_of :
      (next : ℕ) (k : Bytes) (i : ℕ) (ll : List (ℕ × N))
      → All (λ x. x.0 < next) ll
      → element_of get_key k ll ≡ some i
      → i < next
  unfolding element_of
  fresh_of next k i [] h q = cc
  fresh_of next k i ((x, m) ∷ ll) (b, h) q = ground (arith, fresh_of next k i ll)

  set_value-Apart :
      (i : ℕ) (k : Bytes) (n : N) (ll : List (ℕ × N)) → Apart get_key i k ll → set_value i n ll ≡ ll
  unfolding set_value
  set_value-Apart i k n [] h = refl
  set_value-Apart i k n ((j, m) ∷ ll) (d, e, h) =
      rw d (ap (λ l. (j, m) ∷ l) (set_value-Apart i k n ll h))

  -- A node in front, in the place of the one with its key.
  promoted :
      (c : LruCache N) (k : Bytes) (i : ℕ) (node : N)
      → IsCache c
      → element_of get_key k c.ll ≡ some i
      → get_key node ≡ k
      → IsCache (record c { ll = (i, node) ∷ unlink i c.ll })
  unfolding element_of IsDistinct
  promoted c k i node h e keyed = record {
    indexed = λ j. elim (Bool-cases (equal_bytes k j)) [
      | inl b ↦
          rw (keyed, b) (subst (λ x. load x c.dict ≡ some i) (eq_of_equal k j b) (h.indexed k ∙ e))
      | inr b ↦
          rw (keyed, b, element_of-unlink get_key j k c.ll i h.distinct e, equal_sym j k, b)
            (h.indexed j)
    ];
    distinct = (
      subst (λ x. Apart get_key i x (unlink i c.ll)) (sym keyed)
          (hit get_key k c.ll i h.distinct e).alone,
      unlink-IsDistinct get_key i c.ll h.distinct,
    );
    fresh = (
      fresh_of c.next_element k i c.ll h.fresh e,
      All-unlink get_key (λ x. x.0 < c.next_element) i c.ll h.fresh,
    );
  }

  -- The outcome of a method that returns `value` and leaves the nodes `l`.
  pub record Leaves {κ} {B : Type κ} (max : ℕ) (r : Result (B × LruCache N)) (value : B)
      (l : List N) : Type (ℓ ⊔ κ) where
    pub after : LruCache N
    pub returned : r ≡ ok (value, after)
    pub well : IsCache after
    pub holds : nodes get_key after.ll ≡ l
    pub same_max : after.max_element_count ≡ max

  pub get-Leaves :
      (c : LruCache N) (k : Bytes)
      → IsCache c
      → Leaves c.max_element_count
          (get c k)
          (find get_key k (nodes get_key c.ll))
          (touched k (nodes get_key c.ll))
  unfolding get touched move_to_front value_of
  get-Leaves c k h = elim (Option-cases (element_of get_key k c.ll)) [
    | inl e ↦ record {
      after = c;
      returned = rw (get, h.indexed k, e, miss get_key k c.ll e) refl;
      well = h;
      holds = rw (touched, miss get_key k c.ll e) refl;
      same_max = refl;
    }
    | inr (i, e) ↦
        let at = hit get_key k c.ll i h.distinct e in
        record {
          after = record c { ll = (i, at.held) ∷ unlink i c.ll };
          returned = rw (get, h.indexed k, e, at.found) (ground (arith, at.value));
          well = promoted c k i at.held h e at.keyed;
          holds = rw (touched, at.found) (ap (λ l. at.held ∷ l) at.removed);
          same_max = refl;
        }
  ]

  -- A cache from which a key is gone.
  removed-IsCache :
      (c : LruCache N) (k : Bytes) (i : ℕ)
      → IsCache c
      → element_of get_key k c.ll ≡ some i
      → IsCache (record c { ll = unlink i c.ll; dict = delete k c.dict })
  removed-IsCache c k i h e = record {
    indexed = λ j.
        load-delete j k c.dict
        ∙ ap (λ x. if equal_bytes j k then none else x) (h.indexed j)
        ∙ sym (element_of-unlink get_key j k c.ll i h.distinct e);
    distinct = unlink-IsDistinct get_key i c.ll h.distinct;
    fresh = All-unlink get_key (λ x. x.0 < c.next_element) i c.ll h.fresh;
  }

  -- `Remove` returns the node with the key and drops it.
  pub remove_key-Leaves :
      (c : LruCache N) (k : Bytes)
      → IsCache c
      → Leaves c.max_element_count
          (remove_key c k)
          (find get_key k (nodes get_key c.ll))
          (elim (find get_key k (nodes get_key c.ll)) [
            | none ↦ nodes get_key c.ll
            | some n ↦ without get_key k (nodes get_key c.ll)
          ])
  unfolding remove_key remove_with_key
  remove_key-Leaves c k h = elim (Option-cases (element_of get_key k c.ll)) [
    | inl e ↦ record {
      after = c;
      returned = rw (remove_key, h.indexed k, e, miss get_key k c.ll e) refl;
      well = h;
      holds = rw (miss get_key k c.ll e) refl;
      same_max = refl;
    }
    | inr (i, e) ↦
        let at = hit get_key k c.ll i h.distinct e in
        record {
          after = record c { ll = unlink i c.ll; dict = delete k c.dict };
          returned = rw (remove_key, h.indexed k, e, at.found) (ground (arith, at.value));
          well = removed-IsCache c k i h e;
          holds = rw at.found at.removed;
          same_max = refl;
        }
  ]

  record Oldest (ll : List (ℕ × N)) : Type ℓ where
    e : ℕ
    n : N
    is_back : back ll ≡ some e
    is_last : last (nodes get_key ll) ≡ some n
    value : value_of e ll ≡ some n
    keyed : element_of get_key (get_key n) ll ≡ some e
    others : nodes get_key (unlink e ll) ≡ front (nodes get_key ll)

  oldest : (x : ℕ × N) (ll : List (ℕ × N)) → IsDistinct get_key (x ∷ ll) → Oldest (x ∷ ll)
  unfolding back last front element_of unlink value_of IsDistinct
  oldest (i, m) [] h =
      let same : (i == i) ≡ true = ground arith in
      record {
        e = i;
        n = m;
        is_back = refl;
        is_last = refl;
        value = rw same refl;
        keyed = rw (equal_refl (get_key m)) refl;
        others = rw same refl;
      }
  oldest (i, m) (y ∷ ll) (a, h) =
      let below = oldest y ll h in
      let other = Apart-id get_key i below.e (get_key m) (get_key below.n) (y ∷ ll) a below.keyed in
      let key = Apart-key get_key i below.e (get_key m) (get_key below.n) (y ∷ ll) a below.keyed in
      record {
        e = below.e;
        n = below.n;
        is_back = below.is_back;
        is_last = below.is_last;
        value = rw other below.value;
        keyed = rw key below.keyed;
        others = rw other (ap (λ l. m ∷ l) below.others);
      }

  pub length-nodes : (ll : List (ℕ × N)) → length (nodes get_key ll) ≡ length ll
  length-nodes [] = refl
  length-nodes (x ∷ ll) = ap suc (length-nodes ll)

  added_new-IsCache :
      (c : LruCache N) (node : N)
      → IsCache c
      → element_of get_key (get_key node) c.ll ≡ none
      → IsCache (record c {
        ll = (c.next_element, node) ∷ c.ll;
        dict = store (get_key node) c.next_element c.dict;
        next_element = suc c.next_element;
      })
  unfolding element_of IsDistinct
  added_new-IsCache c node h e = record {
    indexed = λ j.
        load-store j (get_key node) c.next_element c.dict
        ∙ rw (equal_sym j (get_key node), h.indexed j) refl;
    distinct = (Apart-new get_key (get_key node) c.next_element c.ll h.fresh e, h.distinct);
    fresh = (omega arith, All-imp (λ x b. omega arith) c.ll h.fresh);
  }

  evict-Leaves :
      (c : LruCache N)
      → Oldest c.ll
      → IsCache c
      → Leaves c.max_element_count
          (evict get_key c)
          (if ltb c.max_element_count (length c.ll) then last (nodes get_key c.ll) else none)
          (if ltb c.max_element_count (length c.ll)
            then front (nodes get_key c.ll)
            else nodes get_key c.ll)
  unfolding evict remove_element
  evict-Leaves c old h = elim (Bool-cases (ltb c.max_element_count (length c.ll))) [
    | inl b ↦ record {
      after = record c { ll = unlink old.e c.ll; dict = delete (get_key old.n) c.dict };
      returned = rw (evict, b, old.is_back, old.is_last) (ground (arith, old.value));
      well = removed-IsCache c (get_key old.n) old.e h old.keyed;
      holds = rw b old.others;
      same_max = refl;
    }
    | inr b ↦ record {
      after = c;
      returned = rw (evict, b) refl;
      well = h;
      holds = rw b refl;
      same_max = refl;
    }
  ]

  added-new :
      (max : ℕ) (n : N) (ll : List (ℕ × N))
      → find get_key (get_key n) (nodes get_key ll) ≡ none
      → added max n (nodes get_key ll) ≡ (
        if ltb max (suc (length ll)) then last (n ∷ nodes get_key ll) else none,
        if ltb max (suc (length ll)) then front (n ∷ nodes get_key ll) else n ∷ nodes get_key ll,
      )
  unfolding added last front
  added-new max n ll q = elim (Bool-cases (ltb max (suc (length ll)))) [
    | inl b ↦ rw (added, q, length-nodes ll, b) refl
    | inr b ↦ rw (added, q, length-nodes ll, b) refl
  ]

  pub added-old :
      (max : ℕ) (n old : N) (l : List N)
      → find get_key (get_key n) l ≡ some old
      → added max n l ≡ (some old, n ∷ without get_key (get_key n) l)
  unfolding added without
  added-old max n old l q = rw (added, q) refl

  moved :
      (k : Bytes) (i : ℕ) (ll : List (ℕ × N)) (at : Hit get_key k ll i)
      → move_to_front i ll ≡ (i, at.held) ∷ unlink i ll
  unfolding move_to_front
  moved k i ll at = rw (move_to_front, at.value) refl

  replaced :
      (c : LruCache N) (k : Bytes) (i : ℕ) (node : N) (at : Hit get_key k c.ll i)
      → ◌>>=◌ {B = Option N × LruCache N}
          (read i (move_to_front i c.ll))
          (λ old. ok (some old, record c { ll = set_value i node (move_to_front i c.ll) }))
        ≡ ok (some at.held, record c { ll = (i, node) ∷ unlink i c.ll })
  unfolding value_of set_value
  replaced c k i node at =
      let same : (i == i) ≡ true = ground arith in
      rw (moved k i c.ll at, same, set_value-Apart i k node (unlink i c.ll) at.alone) (ground arith)

  -- `Add` replaces the node with the same key, or else puts the new one in front and drops the
  -- oldest one of a cache that is now too large.
  pub add-Leaves :
      (c : LruCache N) (node : N)
      → IsCache c
      → Leaves c.max_element_count
          (add get_key c node)
          (added c.max_element_count node (nodes get_key c.ll)).0
          (added c.max_element_count node (nodes get_key c.ll)).1
  unfolding add
  add-Leaves c node h = elim (Option-cases (element_of get_key (get_key node) c.ll)) [
    | inl e ↦
        let c' : LruCache N = record c {
          ll = (c.next_element, node) ∷ c.ll;
          dict = store (get_key node) c.next_element c.dict;
          next_element = suc c.next_element;
        } in
        let eq = added-new c.max_element_count node c.ll (miss get_key (get_key node) c.ll e) in
        let well = added_new-IsCache c node h e in
        let rest = evict-Leaves c' (oldest (c.next_element, node) c.ll well.distinct) well in
        record {
          after = rest.after;
          returned =
              rw (add, h.indexed (get_key node), e)
                (rest.returned ∙ ap (λ x. ok (x.0, rest.after)) (sym eq));
          well = rest.well;
          holds = rest.holds ∙ ap (λ x. x.1) (sym eq);
          same_max = rest.same_max;
        }
    | inr (i, e) ↦
        let at = hit get_key (get_key node) c.ll i h.distinct e in
        let eq = added-old c.max_element_count node at.held (nodes get_key c.ll) at.found in
        record {
          after = record c { ll = (i, node) ∷ unlink i c.ll };
          returned =
              rw (add, h.indexed (get_key node), e, eq) (replaced c (get_key node) i node at);
          well = promoted c (get_key node) i node h e refl;
          holds = ap (λ l. node ∷ l) at.removed ∙ ap (λ x. x.1) (sym eq);
          same_max = refl;
        }
  ]
