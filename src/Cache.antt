-- ===== src/Cache.antt =====
-- cache/cache.go: the LRU cache of nodes.
-- The interface `Node` is a parameter, the type of nodes with its method `GetKey`. An element of
-- `container/list` is named by a number that no other element of the list has; the front comes
-- first. The map `dict` is an association list. `maxElementCount` is not negative: Go treats a
-- negative one as 0. An element that is not in the list is a `panic` here; Go would still read it.
pub mod Recency
pub mod Methods
pub mod Held
pub mod Calls
use iavl.Prelude.{
  ℕ, suc, ◌≡◌, Bool, Option, none, some, is_some, List, [], ◌∷◌, ◌==◌, ltb, if◌then◌else◌, length,
  Result, ok, panic, ◌>>=◌,
}
use iavl.Bytes.{Bytes}
use iavl.Bytes.Map.{load, store, delete}

pub record LruCache {ℓ} (N : Type ℓ) : Type ℓ where
  pub dict : List (Bytes × ℕ)
  pub max_element_count : ℕ
  pub ll : List (ℕ × N)
  pub next_element : ℕ

unfoldable pub new {ℓ} : {N : Type ℓ} → ℕ → LruCache N
new max_element_count = record {
  dict = [];
  max_element_count = max_element_count;
  ll = [];
  next_element = 0;
}

module _ {ℓ} {N : Type ℓ} where
  -- `e.Value`
  unfoldable pub value_of : ℕ → List (ℕ × N) → Option N
  value_of e [] = none
  value_of e ((i, n) ∷ ll) = if i == e then some n else value_of e ll

  -- the list without `e`
  unfoldable pub unlink : ℕ → List (ℕ × N) → List (ℕ × N)
  unlink e [] = []
  unlink e ((i, n) ∷ ll) = let rest = unlink e ll in if i == e then rest else (i, n) ∷ rest

  -- `ll.MoveToFront(e)`, which leaves a list that does not have `e` as it is
  unfoldable pub move_to_front : ℕ → List (ℕ × N) → List (ℕ × N)
  unfolding value_of unlink
  move_to_front e ll = elim (value_of e ll) [ none ↦ ll | some n ↦ (e, n) ∷ unlink e ll ]

  -- `e.Value = node`
  unfoldable pub set_value : ℕ → N → List (ℕ × N) → List (ℕ × N)
  set_value e node [] = []
  set_value e node ((i, n) ∷ ll) = (i, if i == e then node else n) ∷ set_value e node ll

  -- `ll.Back()`, `none` for nil
  unfoldable pub back : List (ℕ × N) → Option ℕ
  back [] = none
  back ((i, n) ∷ []) = some i
  back (x ∷ y ∷ ll) = back (y ∷ ll)

  -- `e.Value.(Node)` of an element that is in the list
  abbrev pub read : ℕ → List (ℕ × N) → Result N
  read e ll = elim (value_of e ll) [ none ↦ panic | some n ↦ ok n ]

  unfoldable pub remove_with_key : LruCache N → ℕ → Bytes → Result (N × LruCache N)
  unfolding value_of unlink
  remove_with_key c e key = do
    removed ← read e c.ll
    ok (removed, record c { ll = unlink e c.ll; dict = delete key c.dict })

  unfoldable pub get : LruCache N → Bytes → Result (Option N × LruCache N)
  unfolding value_of move_to_front
  get c key = elim (load key c.dict) [
    | none ↦ ok (none, c)
    | some ele ↦
        let c : LruCache N = record c { ll = move_to_front ele c.ll } in
        do value ← read ele c.ll; ok (some value, c)
  ]

  unfoldable pub has : LruCache N → Bytes → Bool
  has c key = is_some (load key c.dict)

  unfoldable pub len : LruCache N → ℕ
  len c = length c.ll

  unfoldable pub remove_key : LruCache N → Bytes → Result (Option N × LruCache N)
  unfolding remove_with_key
  remove_key c key = elim (load key c.dict) [
    | none ↦ ok (none, c)
    | some elem ↦ do (removed, c) ← remove_with_key c elem key; ok (some removed, c)
  ]

module _ {ℓ} {N : Type ℓ} (get_key : N → Bytes) where
  -- `remove`
  unfoldable pub remove_element : LruCache N → ℕ → Result (N × LruCache N)
  unfolding value_of unlink
  remove_element c e = do
    removed ← read e c.ll
    ok (removed, record c { ll = unlink e c.ll; dict = delete (get_key removed) c.dict })

  -- The end of `Add`, with the new element in place.
  unfoldable pub evict : LruCache N → Result (Option N × LruCache N)
  unfolding back remove_element
  evict c =
      if ltb c.max_element_count (length c.ll)
      then elim (back c.ll) [
        | none ↦ panic
        | some oldest ↦ do (removed, c) ← remove_element c oldest; ok (some removed, c)
      ]
      else ok (none, c)

  unfoldable pub add : LruCache N → N → Result (Option N × LruCache N)
  unfolding value_of move_to_front set_value evict
  add c node = elim (load (get_key node) c.dict) [
    | some e ↦
        let ll = move_to_front e c.ll in
        do old ← read e ll; ok (some old, record c { ll = set_value e node ll })
    | none ↦
        let elem = c.next_element in
        evict (record c {
          ll = (elem, node) ∷ c.ll;
          dict = store (get_key node) elem c.dict;
          next_element = suc elem;
        })
  ]
