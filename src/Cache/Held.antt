-- ===== src/Cache/Held.antt =====
-- cache/cache.go: the nodes that a method leaves in the cache were there before, or are the new one.
use iavl.Prelude.{
  ◌⊎◌, ℕ, ◌≡◌, refl, sym, ap, subst, ◌∙◌, List, [], ◌∷◌, true, false, Option, none, some,
  if◌then◌else◌, ltb, length, suc, arith, Bool-cases, Option-cases, inl, inr,
}
use iavl.Bytes.{Bytes, equal_bytes}
use iavl.Bytes.Order.{eq_of_compare, compare_refl}
use iavl.Cache.Recency.{find, without, eq_of_equal}
use iavl.Cache.Methods.{added, touched, front, added-old}

module _ {ℓ} {N : Type ℓ} (key_of : N → Bytes) where
  find-keyed :
      (k : Bytes) (l : List N) (n : N) → find key_of k l ≡ some n → equal_bytes (key_of n) k ≡ true
  unfolding find
  find-keyed k [] n h = cc
  find-keyed k (m ∷ l) n h = elim (Bool-cases (equal_bytes (key_of m) k)) [
    | inl c ↦
        let same : some m ≡ some n =
          subst (λ b. (if b then some m else find key_of k l) ≡ some n) c h in
        let at : m ≡ n = cc in subst (λ x. equal_bytes (key_of x) k ≡ true) at c
    | inr c ↦ find-keyed k l n (subst (λ b. (if b then some m else find key_of k l) ≡ some n) c h)
  ]

  -- a list in which only some of the other's nodes are found
  Within : List N → List N → Type ℓ
  Within l m = (k : Bytes) (n : N) → find key_of k l ≡ some n → find key_of k m ≡ some n

  Within-cons : (x : N) (l m : List N) → Within l m → Within (x ∷ l) (x ∷ m)
  unfolding Within find
  Within-cons x l m h k n e = elim (Bool-cases (equal_bytes (key_of x) k)) [
    | inl c ↦ rw c (subst (λ b. (if b then some x else find key_of k l) ≡ some n) c e)
    | inr c ↦ rw c (h k n (subst (λ b. (if b then some x else find key_of k l) ≡ some n) c e))
  ]

  nil-Within : (m : List N) → Within [] m
  unfolding Within find
  nil-Within m k n e = cc

  front-Within : (l : List N) → Within (front l) l
  unfolding front
  front-Within [] = nil-Within []
  front-Within (x ∷ []) = nil-Within (x ∷ [])
  front-Within (x ∷ y ∷ l) = Within-cons x (front (y ∷ l)) (y ∷ l) (front-Within (y ∷ l))

  pub found_first :
      (k : Bytes) (m : N) (l : List N) (n : N)
      → find key_of k (m ∷ l) ≡ some n
      → ((equal_bytes (key_of m) k ≡ true) × (m ≡ n))
        ⊎ ((equal_bytes (key_of m) k ≡ false) × (find key_of k l ≡ some n))
  unfolding find
  found_first k m l n h = elim (Bool-cases (equal_bytes (key_of m) k)) [
    | inl c ↦
        let same : some m ≡ some n =
          subst (λ b. (if b then some m else find key_of k l) ≡ some n) c h in
        inl (c, cc)
    | inr c ↦ inr (c, subst (λ b. (if b then some m else find key_of k l) ≡ some n) c h)
  ]

  front_found :
      (k : Bytes) (m : N) (l : List N) (n : N)
      → find key_of k (front (m ∷ l)) ≡ some n
      → find key_of k (m ∷ l) ≡ some n
  unfolding Within
  front_found k m l n h = front-Within (m ∷ l) k n h

  added-full :
      (max : ℕ) (m : N) (l : List N)
      → find key_of (key_of m) l ≡ none
      → ltb max (suc (length l)) ≡ true
      → (added key_of max m l).1 ≡ front (m ∷ l)
  unfolding added
  added-full max m l e b = rw (added, e, b) refl

  added-room :
      (max : ℕ) (m : N) (l : List N)
      → find key_of (key_of m) l ≡ none
      → ltb max (suc (length l)) ≡ false
      → (added key_of max m l).1 ≡ m ∷ l
  unfolding added
  added-room max m l e b = rw (added, e, b) refl

  find-without :
      (k j : Bytes) (l : List N)
      → find key_of k (without key_of j l) ≡ (if equal_bytes j k then none else find key_of k l)
  unfolding find without
  find-without k j [] = ground arith
  find-without k j (x ∷ l) = ground (
    arith,
    find-without k j l,
    eq_of_compare (key_of x) j,
    eq_of_compare (key_of x) k,
    eq_of_compare j k,
    compare_refl j,
    compare_refl k,
  )

  pub without-found :
      (k j : Bytes) (l : List N) (n : N)
      → find key_of k (without key_of j l) ≡ some n
      → (equal_bytes j k ≡ false) × (find key_of k l ≡ some n)
  without-found k j l n h = elim (Bool-cases (equal_bytes j k)) [
    | inl c ↦ absurd (
        nothing (
          subst (λ b. (if b then none else find key_of k l) ≡ some n) c
            (sym (find-without k j l) ∙ h)))
    | inr c ↦ (
      c,
      subst (λ b. (if b then none else find key_of k l) ≡ some n) c (sym (find-without k j l) ∙ h),
    )
  ]
    where
      nothing : {n : N} → none ≡ some n → ⊥
      nothing e = cc

  without-Within : (j : Bytes) (l : List N) → Within (without key_of j l) l
  unfolding Within
  without-Within j l k n h = (without-found k j l n h).1

  pub touched-found :
      (k j : Bytes) (l : List N) (n : N)
      → find key_of k (touched key_of j l) ≡ some n
      → find key_of k l ≡ some n
  unfolding touched
  touched-found k j l n h = elim (Option-cases (find key_of j l)) [
    | inl e ↦
        subst (λ o. find key_of k (elim o [ none ↦ l | some m ↦ m ∷ without key_of j l ]) ≡ some n)
          e h
    | inr (m, e) ↦ moved m e (
        subst (λ o. find key_of k (elim o [ none ↦ l | some m ↦ m ∷ without key_of j l ]) ≡ some n)
          e h)
  ]
    where
      moved :
          (m : N)
          → find key_of j l ≡ some m
          → find key_of k (m ∷ without key_of j l) ≡ some n
          → find key_of k l ≡ some n
      moved m e q = elim (found_first k m (without key_of j l) n q) [
        | inl (c, at) ↦
            let same : j ≡ k =
              sym (eq_of_equal (key_of m) j (find-keyed j l m e)) ∙ eq_of_equal (key_of m) k c in
            subst (λ x. find key_of x l ≡ some m) same e ∙ ap some at
        | inr (c, q') ↦ (without-found k j l n q').1
      ]

  -- What `Add` leaves is the new node or was there before.
  pub added-found :
      (max : ℕ) (k : Bytes) (m : N) (l : List N) (n : N)
      → find key_of k (added key_of max m l).1 ≡ some n
      → ((equal_bytes (key_of m) k ≡ true) × (m ≡ n))
        ⊎ ((equal_bytes (key_of m) k ≡ false) × (find key_of k l ≡ some n))
  added-found max k m l n h = elim (Option-cases (find key_of (key_of m) l)) [
    | inl e ↦ elim (Bool-cases (ltb max (suc (length l)))) [
      | inl b ↦
          found_first k m l n
            (front_found k m l n (subst (λ a. find key_of k a ≡ some n) (added-full max m l e b) h))
      | inr b ↦
          found_first k m l n (subst (λ a. find key_of k a ≡ some n) (added-room max m l e b) h)
    ]
    | inr (old, e) ↦
        elim (found_first k m (without key_of (key_of m) l) n
          (subst (λ a. find key_of k a.1 ≡ some n) (added-old key_of max m old l e) h)) [
            | inl q ↦ inl q
            | inr (c, q) ↦ inr (c, (without-found k (key_of m) l n q).1)
          ]
  ]

  -- What `Remove` leaves was there before, under another key.
  pub removed-found :
      (k j : Bytes) (l : List N) (n : N)
      → find key_of k (elim (find key_of j l) [ none ↦ l | some m ↦ without key_of j l ]) ≡ some n
      → (equal_bytes j k ≡ false) × (find key_of k l ≡ some n)
  removed-found k j l n h = elim (Option-cases (find key_of j l)) [
    | inl e ↦ absent e (kept e)
    | inr (m, e) ↦ without-found k j l n (
        subst (λ o. find key_of k (elim o [ none ↦ l | some m ↦ without key_of j l ]) ≡ some n) e h)
  ]
    where
      kept : find key_of j l ≡ none → find key_of k l ≡ some n
      kept e =
          subst (λ o. find key_of k (elim o [ none ↦ l | some m ↦ without key_of j l ]) ≡ some n) e
            h

      none-some : (o : Option N) → o ≡ none → o ≡ some n → ⊥
      none-some o p q = cc

      absent :
          find key_of j l ≡ none
          → find key_of k l ≡ some n
          → (equal_bytes j k ≡ false) × (find key_of k l ≡ some n)
      absent e q = elim (Bool-cases (equal_bytes j k)) [
        | inl c ↦ absurd (
            none-some (find key_of k l) (subst (λ x. find key_of x l ≡ none) (eq_of_equal j k c) e)
              q)
        | inr c ↦ (c, q)
      ]
