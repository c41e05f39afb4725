-- ===== src/Cache/Calls.antt =====
-- cache/cache.go: sequences of calls of the methods, from `New` on.
use iavl.Prelude.{
  ℕ, suc, ◌<◌, ◌≤◌, ◌≡◌, ◌≢◌, refl, ap, subst, Bool, Option, none, some, is_some, List, [], ◌∷◌,
  ltb, length, Result, ok, ◌>>=◌, arith, Bool-cases, Option-cases, inl, inr,
}
use iavl.Bytes.{Bytes, equal_bytes}
use iavl.Bytes.Map.{load}
use iavl.Cache.{LruCache, get, has, len, add, remove_key, new}
use iavl.Cache.Recency.{find, without, nodes, element_of, hit, miss, IsDistinct}
use iavl.Cache.Methods.{
  touched, added, front, IsCache, Leaves, get-Leaves, add-Leaves, remove_key-Leaves, length-nodes,
}

pub data Call {ℓ} (N : Type ℓ) : Type ℓ where
  add_node : N → Call N
  get_node remove_node has_node : Bytes → Call N
  count : Call N

pub data Answer {ℓ} (N : Type ℓ) : Type ℓ where
  a_node : Option N → Answer N
  a_bool : Bool → Answer N
  a_size : ℕ → Answer N

module _ {ℓ} {N : Type ℓ} (get_key : N → Bytes) where
  -- A call, on the cache.
  unfoldable pub call : Call N → LruCache N → Result (Answer N × LruCache N)
  call (add_node n) c = do (answer, c) ← add get_key c n; ok (a_node answer, c)
  call (get_node k) c = do (answer, c) ← get c k; ok (a_node answer, c)
  call (remove_node k) c = do (answer, c) ← remove_key c k; ok (a_node answer, c)
  call (has_node k) c = ok (a_bool (has c k), c)
  call count c = ok (a_size (len c), c)

  unfoldable pub call_all : List (Call N) → LruCache N → Result (List (Answer N) × LruCache N)
  call_all [] c = ok ([], c)
  call_all (x ∷ xs) c = do
    (answer, c) ← call x c
    (answers, c) ← call_all xs c
    ok (answer ∷ answers, c)

  -- The same calls on a plain list of nodes, the latest first.
  unfoldable pub answer_of : ℕ → Call N → List N → Answer N
  answer_of max (add_node n) l = a_node (added get_key max n l).0
  answer_of max (get_node k) l = a_node (find get_key k l)
  answer_of max (remove_node k) l = a_node (find get_key k l)
  answer_of max (has_node k) l = a_bool (is_some (find get_key k l))
  answer_of max count l = a_size (length l)

  unfoldable pub nodes_after : ℕ → Call N → List N → List N
  nodes_after max (add_node n) l = (added get_key max n l).1
  nodes_after max (get_node k) l = touched get_key k l
  nodes_after max (remove_node k) l = elim (find get_key k l) [
    | none ↦ l
    | some n ↦ without get_key k l
  ]
  nodes_after max (has_node k) l = l
  nodes_after max count l = l

  unfoldable pub answers : ℕ → List (Call N) → List N → List (Answer N)
  answers max [] l = []
  answers max (x ∷ xs) l = answer_of max x l ∷ answers max xs (nodes_after max x l)

  unfoldable pub nodes_after_all : ℕ → List (Call N) → List N → List N
  nodes_after_all max [] l = l
  nodes_after_all max (x ∷ xs) l = nodes_after_all max xs (nodes_after max x l)

  has-find :
      (c : LruCache N) (k : Bytes)
      → IsCache get_key c
      → has c k ≡ is_some (find get_key k (nodes get_key c.ll))
  unfolding has
  has-find c k h = elim (Option-cases (element_of get_key k c.ll)) [
    | inl e ↦ rw (has, h.indexed k, e, miss get_key k c.ll e) refl
    | inr (i, e) ↦ rw (has, h.indexed k, e, (hit get_key k c.ll i h.distinct e).found) refl
  ]

  answering :
      {max : ℕ} {r : Result (Option N × LruCache N)} {value : Option N} {l : List N}
      → Leaves get_key max r value l
      → Leaves get_key max
          (◌>>=◌ {B = Answer N × LruCache N} r (λ x. ok (a_node x.0, x.1)))
          (a_node value)
          l
  answering h = record {
    after = h.after;
    returned = rw h.returned refl;
    well = h.well;
    holds = h.holds;
    same_max = h.same_max;
  }

  call-Leaves :
      (x : Call N) (c : LruCache N)
      → IsCache get_key c
      → Leaves get_key c.max_element_count
          (call x c)
          (answer_of c.max_element_count x (nodes get_key c.ll))
          (nodes_after c.max_element_count x (nodes get_key c.ll))
  unfolding call answer_of nodes_after len
  call-Leaves (add_node n) c h = answering (add-Leaves get_key c n h)
  call-Leaves (get_node k) c h = answering (get-Leaves get_key c k h)
  call-Leaves (remove_node k) c h = answering (remove_key-Leaves get_key c k h)
  call-Leaves (has_node k) c h = record {
    after = c;
    returned = rw (has-find c k h) refl;
    well = h;
    holds = refl;
    same_max = refl;
  }
  call-Leaves count c h = record {
    after = c;
    returned = rw (len, length-nodes get_key c.ll) refl;
    well = h;
    holds = refl;
    same_max = refl;
  }

  call_all-Leaves :
      (max : ℕ) (xs : List (Call N)) (c : LruCache N) (l : List N)
      → IsCache get_key c
      → nodes get_key c.ll ≡ l
      → c.max_element_count ≡ max
      → Leaves get_key max (call_all xs c) (answers max xs l) (nodes_after_all max xs l)
  unfolding call_all answers nodes_after_all
  call_all-Leaves max [] c l h e m = record {
    after = c;
    returned = refl;
    well = h;
    holds = e;
    same_max = m;
  }
  call_all-Leaves max (x ∷ xs) c l h e m =
      let first : Leaves get_key max (call x c) (answer_of max x l) (nodes_after max x l) =
        subst (λ y. Leaves get_key max (call x c) (answer_of max x y) (nodes_after max x y)) e
          (subst
            (λ y.
              Leaves get_key y (call x c) (answer_of y x (nodes get_key c.ll))
                (nodes_after y x (nodes get_key c.ll)))
            m (call-Leaves x c h)) in
      let rest =
        call_all-Leaves max xs first.after (nodes_after max x l) first.well first.holds
          first.same_max in
      record {
        after = rest.after;
        returned = rw (first.returned, rest.returned) refl;
        well = rest.well;
        holds = rest.holds;
        same_max = rest.same_max;
      }

  new-IsCache : (max : ℕ) → IsCache get_key (new max)
  unfolding new load element_of IsDistinct
  new-IsCache max = record { indexed = λ k. refl; distinct = tt; fresh = tt }

  pub call_all-answers :
      (max : ℕ) (xs : List (Call N))
      → (c : LruCache N) × (call_all xs (new max) ≡ ok (answers max xs [], c))
        × (nodes get_key c.ll ≡ nodes_after_all max xs [])
  unfolding new
  call_all-answers max xs =
      let r = call_all-Leaves max xs (new max) [] (new-IsCache max) refl refl in
      (r.after, r.returned, r.holds)

  length-without : (k : Bytes) (l : List N) → length (without get_key k l) ≤ length l
  unfolding without
  length-without k [] = omega arith
  length-without k (n ∷ l) = ground (arith, length-without k l)

  length-without_found :
      (k : Bytes) (l : List N) → find get_key k l ≢ none → length (without get_key k l) < length l
  unfolding without find
  length-without_found k [] h = absurd (h refl)
  length-without_found k (n ∷ l) h = elim (Bool-cases (equal_bytes (get_key n) k)) [
    | inl b ↦ rw b (omega (arith, length-without k l))
    | inr b ↦ rw b (omega (arith, length-without_found k l (λ e. h (rw b e))))
  ]

  length-front : (n : N) (l : List N) → length (front (n ∷ l)) ≡ length l
  unfolding front
  length-front n [] = refl
  length-front n (m ∷ l) = ap suc (length-front m l)

  length-added :
      (max : ℕ) (n : N) (l : List N) → length l ≤ max → length (added get_key max n l).1 ≤ max
  unfolding added
  length-added max n l h = elim (Option-cases (find get_key (get_key n) l)) [
    | inl e ↦ elim (Bool-cases (ltb max (suc (length l)))) [
      | inl b ↦ rw (added, e, b) (omega (arith, length-front n l))
      | inr b ↦ rw (added, e, b) (ground arith)
    ]
    | inr (old, e) ↦ rw (added, e) (omega (arith, length-without_found (get_key n) l (λ q. cc)))
  ]

  length-nodes_after :
      (max : ℕ) (x : Call N) (l : List N) → length l ≤ max → length (nodes_after max x l) ≤ max
  unfolding nodes_after touched
  length-nodes_after max (add_node n) l h = length-added max n l h
  length-nodes_after max (get_node k) l h = ground (arith, length-without_found k l)
  length-nodes_after max (remove_node k) l h = ground (arith, length-without k l)
  length-nodes_after max (has_node k) l h = h
  length-nodes_after max count l h = h

  length-nodes_after_all :
      (max : ℕ) (xs : List (Call N)) (l : List N)
      → length l ≤ max
      → length (nodes_after_all max xs l) ≤ max
  unfolding nodes_after_all
  length-nodes_after_all max [] l h = h
  length-nodes_after_all max (x ∷ xs) l h =
      length-nodes_after_all max xs _ (length-nodes_after max x l h)

  -- From a new cache on, no sequence of calls leaves more nodes than the cache is to hold.
  pub call_all-len :
      (max : ℕ) (xs : List (Call N)) (given : List (Answer N)) (c : LruCache N)
      → call_all xs (new max) ≡ ok (given, c)
      → len c ≤ max
  unfolding len
  call_all-len max xs given c h =
      let (c', returned, holds) = call_all-answers max xs in
      let same : c' ≡ c = cc in
      subst (λ c. length c.ll ≤ max) same
        (omega (
          arith,
          length-nodes get_key c'.ll,
          ap length holds,
          length-nodes_after_all max xs [] (omega arith),
        ))
