-- ===== src/Cache/Recency.antt =====
-- cache/cache.go: the list of elements under the map from keys to elements.
use iavl.Prelude.{
  ◌⊎◌, ℕ, ◌<◌, ◌≡◌, refl, sym, ap, subst, ◌∙◌, true, false, Option, none, some, List, [], ◌∷◌, All,
  ◌==◌, if◌then◌else◌, arith, Bool-cases, inl, inr,
}
use iavl.Bytes.{Bytes, equal_bytes}
use iavl.Bytes.Order.{eq_of_compare, compare_refl}
use iavl.Cache.{value_of, unlink}

pub eq_of_equal : (a b : Bytes) → equal_bytes a b ≡ true → a ≡ b
eq_of_equal a b h = ground (arith, eq_of_compare a b)

pub equal_refl : (a : Bytes) → equal_bytes a a ≡ true
equal_refl a = ground (arith, compare_refl a)

pub equal_sym : (a b : Bytes) → equal_bytes a b ≡ equal_bytes b a
equal_sym a b = elim (Bool-cases (equal_bytes a b)) [
  | inl e ↦ rw (eq_of_equal a b e)
  | inr e ↦ elim (Bool-cases (equal_bytes b a)) [
    | inl d ↦ rw (eq_of_equal b a d)
    | inr d ↦ rw (e, d)
  ]
]

module _ {ℓ} {N : Type ℓ} (get_key : N → Bytes) where
  -- A list of nodes, the latest first, as the cache is seen from outside.
  unfoldable pub find : Bytes → List N → Option N
  find k [] = none
  find k (n ∷ l) = if equal_bytes (get_key n) k then some n else find k l

  unfoldable pub without : Bytes → List N → List N
  without k [] = []
  without k (n ∷ l) = let rest = without k l in if equal_bytes (get_key n) k then rest else n ∷ rest

  -- the element that holds a key
  unfoldable pub element_of : Bytes → List (ℕ × N) → Option ℕ
  element_of k [] = none
  element_of k ((i, n) ∷ ll) = if equal_bytes (get_key n) k then some i else element_of k ll

  abbrev pub nodes : List (ℕ × N) → List N
  nodes [] = []
  nodes ((i, n) ∷ ll) = n ∷ nodes ll

  -- no element of the list is `i` or has the key `k`
  abbrev pub Apart : ℕ → Bytes → List (ℕ × N) → Type 0
  Apart i k [] = Unit
  Apart i k ((j, m) ∷ ll) = ((j == i) ≡ false) × (equal_bytes (get_key m) k ≡ false) × Apart i k ll

  unfoldable pub IsDistinct : List (ℕ × N) → Type 0
  IsDistinct [] = Unit
  IsDistinct ((i, n) ∷ ll) = Apart i (get_key n) ll × IsDistinct ll

  unlink-Apart : (i : ℕ) (k : Bytes) (ll : List (ℕ × N)) → Apart i k ll → unlink i ll ≡ ll
  unfolding unlink
  unlink-Apart i k [] h = refl
  unlink-Apart i k ((j, m) ∷ ll) (d, e, h) = rw d (ap (λ l. (j, m) ∷ l) (unlink-Apart i k ll h))

  without-Apart :
      (i : ℕ) (k : Bytes) (ll : List (ℕ × N)) → Apart i k ll → without k (nodes ll) ≡ nodes ll
  unfolding without
  without-Apart i k [] h = refl
  without-Apart i k ((j, m) ∷ ll) (d, e, h) = rw e (ap (λ l. m ∷ l) (without-Apart i k ll h))

  Apart-unlink : (e i : ℕ) (k : Bytes) (ll : List (ℕ × N)) → Apart i k ll → Apart i k (unlink e ll)
  unfolding unlink
  Apart-unlink e i k [] h = tt
  Apart-unlink e i k ((j, m) ∷ ll) (d, c, h) = elim (Bool-cases (j == e)) [
    | inl q ↦ rw q (Apart-unlink e i k ll h)
    | inr q ↦ rw q (d, c, Apart-unlink e i k ll h)
  ]

  pub unlink-IsDistinct : (e : ℕ) (ll : List (ℕ × N)) → IsDistinct ll → IsDistinct (unlink e ll)
  unfolding unlink IsDistinct
  unlink-IsDistinct e [] h = tt
  unlink-IsDistinct e ((j, m) ∷ ll) (a, h) = elim (Bool-cases (j == e)) [
    | inl q ↦ rw q (unlink-IsDistinct e ll h)
    | inr q ↦ rw q (Apart-unlink e j (get_key m) ll a, unlink-IsDistinct e ll h)
  ]

  -- What an element that holds `k` is.
  pub record Hit (k : Bytes) (ll : List (ℕ × N)) (e : ℕ) : Type ℓ where
    pub held : N
    pub value : value_of e ll ≡ some held
    pub found : find k (nodes ll) ≡ some held
    pub keyed : get_key held ≡ k
    pub removed : nodes (unlink e ll) ≡ without k (nodes ll)
    pub alone : Apart e k (unlink e ll)

  pub Apart-id :
      (i e : ℕ) (k j : Bytes) (ll : List (ℕ × N))
      → Apart i k ll
      → element_of j ll ≡ some e
      → (i == e) ≡ false
  unfolding element_of
  Apart-id i e k j [] h q = cc
  Apart-id i e k j ((x, m) ∷ ll) (d, c, h) q = ground (arith, Apart-id i e k j ll)

  pub Apart-key :
      (i e : ℕ) (k j : Bytes) (ll : List (ℕ × N))
      → Apart i k ll
      → element_of j ll ≡ some e
      → equal_bytes k j ≡ false
  unfolding element_of
  Apart-key i e k j [] h q = cc
  Apart-key i e k j ((x, m) ∷ ll) (d, c, h) q = elim (Bool-cases (equal_bytes (get_key m) j)) [
    | inl b ↦
        subst (λ z. equal_bytes k z ≡ false) (eq_of_equal (get_key m) j b)
          (equal_sym k (get_key m) ∙ c)
    | inr b ↦ Apart-key i e k j ll h (ground arith)
  ]

  pub hit :
      (k : Bytes) (ll : List (ℕ × N)) (e : ℕ)
      → IsDistinct ll
      → element_of k ll ≡ some e
      → Hit k ll e
  unfolding element_of IsDistinct value_of find without unlink
  hit k [] e h q = cc
  hit k ((i, m) ∷ ll) e (a, h) q = elim (Bool-cases (equal_bytes (get_key m) k)) [
    | inl b ↦
        let same : (i == e) ≡ true = ground arith in
        let at : i ≡ e = ground arith in
        let keyed : get_key m ≡ k = eq_of_equal (get_key m) k b in
        let gone : unlink e ll ≡ ll =
          subst (λ x. unlink x ll ≡ ll) at (unlink-Apart i (get_key m) ll a) in
        let kept : without k (nodes ll) ≡ nodes ll =
          subst (λ x. without x (nodes ll) ≡ nodes ll) keyed (without-Apart i (get_key m) ll a) in
        record {
          held = m;
          value = rw same refl;
          found = rw b refl;
          keyed = keyed;
          removed = rw (same, b) (ap nodes gone ∙ sym kept);
          alone = rw same (
              subst (Apart e k) (sym gone)
                (subst (λ x. Apart e x ll) keyed (subst (λ x. Apart x (get_key m) ll) at a)));
        }
    | inr b ↦
        let apart : (i == e) ≡ false = Apart-id i e (get_key m) k ll a (ground arith) in
        let below = hit k ll e h (ground arith) in
        record {
          held = below.held;
          value = rw apart below.value;
          found = rw b below.found;
          keyed = below.keyed;
          removed = rw (apart, b) (ap (λ l. m ∷ l) below.removed);
          alone = rw apart (apart, b, below.alone);
        }
  ]

  pub miss : (k : Bytes) (ll : List (ℕ × N)) → element_of k ll ≡ none → find k (nodes ll) ≡ none
  unfolding element_of find
  miss k [] q = refl
  miss k ((i, m) ∷ ll) q = elim (Bool-cases (equal_bytes (get_key m) k)) [
    | inl b ↦ cc
    | inr b ↦ rw b (miss k ll (ground arith))
  ]

  -- a new element of a key that the list does not have
  pub Apart-new :
      (k : Bytes) (next : ℕ) (ll : List (ℕ × N))
      → All (λ x. x.0 < next) ll
      → element_of k ll ≡ none
      → Apart next k ll
  unfolding element_of
  Apart-new k next [] h q = tt
  Apart-new k next ((i, m) ∷ ll) (b, h) q = elim (Bool-cases (equal_bytes (get_key m) k)) [
    | inl d ↦ cc
    | inr d ↦ (ground arith, d, Apart-new k next ll h (ground arith))
  ]

  element_of-Apart : (i : ℕ) (k : Bytes) (ll : List (ℕ × N)) → Apart i k ll → element_of k ll ≡ none
  unfolding element_of
  element_of-Apart i k [] h = refl
  element_of-Apart i k ((j, m) ∷ ll) (d, c, h) = rw c (element_of-Apart i k ll h)

  pub element_of-unlink :
      (j k : Bytes) (ll : List (ℕ × N)) (e : ℕ)
      → IsDistinct ll
      → element_of k ll ≡ some e
      → element_of j (unlink e ll) ≡ (if equal_bytes j k then none else element_of j ll)
  unfolding element_of IsDistinct unlink
  element_of-unlink j k [] e h q = cc
  element_of-unlink j k ((i, m) ∷ ll) e (a, h) q = elim (Bool-cases (equal_bytes (get_key m) k)) [
    | inl b ↦
        let same : (i == e) ≡ true = ground arith in
        let at : i ≡ e = ground arith in
        let keyed : get_key m ≡ k = eq_of_equal (get_key m) k b in
        let gone : unlink e ll ≡ ll =
          subst (λ x. unlink x ll ≡ ll) at (unlink-Apart i (get_key m) ll a) in
        rw (same, gone) (other keyed (Bool-cases (equal_bytes j k)))
    | inr b ↦
        let apart : (i == e) ≡ false = Apart-id i e (get_key m) k ll a (ground arith) in
        rw apart (below b (element_of-unlink j k ll e h (ground arith)))
  ]
    where
      other :
          get_key m ≡ k
          → (equal_bytes j k ≡ true) ⊎ (equal_bytes j k ≡ false)
          → element_of j ll ≡ (
              if equal_bytes j k
              then none
              else (if equal_bytes (get_key m) j then some i else element_of j ll))
      other keyed (inl c) = rw c (
          subst (λ x. element_of x ll ≡ none) (keyed ∙ sym (eq_of_equal j k c))
            (element_of-Apart i (get_key m) ll a))
      other keyed (inr c) = rw (c, keyed, equal_sym k j, c) refl

      below :
          equal_bytes (get_key m) k ≡ false
          → element_of j (unlink e ll) ≡ (if equal_bytes j k then none else element_of j ll)
          → (if equal_bytes (get_key m) j then some i else element_of j (unlink e ll)) ≡ (
              if equal_bytes j k
              then none
              else (if equal_bytes (get_key m) j then some i else element_of j ll))
      below b rest = elim (Bool-cases (equal_bytes (get_key m) j)) [
        | inl c ↦ rw (c, subst (λ x. equal_bytes x k ≡ false) (eq_of_equal (get_key m) j c) b) refl
        | inr c ↦ rw c rest
      ]

  pub All-unlink : (P : ℕ × N → Type 0) (e : ℕ) (ll : List (ℕ × N)) → All P ll → All P (unlink e ll)
  unfolding unlink
  All-unlink P e [] h = tt
  All-unlink P e ((i, m) ∷ ll) (p, h) = elim (Bool-cases (i == e)) [
    | inl b ↦ rw b (All-unlink P e ll h)
    | inr b ↦ rw b (p, All-unlink P e ll h)
  ]
