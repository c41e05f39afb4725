-- ===== src/NodeDatabase/Search.antt =====
-- nodedb.go: the search for the first version in `getFirstVersion`.
use iavl.Prelude.{
  ℕ, zero, suc, ◌+◌, ◌-◌, ◌/◌, ◌%◌, ◌^◌, ◌≤◌, ◌<◌, ◌≡◌, refl, ap, ◌∙◌, Bool, true, false, ltb, leb,
  ok, arith, Bool-cases, inl, inr,
}
use iavl.Prelude.Words.{two_63, two_64, lt_int64}
use iavl.MemDb.{BTree}
use iavl.NodeDatabase.{NodeDatabase, has_version}
use iavl.NodeDatabase.Versions.{half_int64, search_first}

-- without an overflow, the middle and the comparison are those of numbers
middle :
    (first latest : ℕ)
    → latest + first < two_63
    → half_int64 ((latest + first) % two_64) ≡ (latest + first) / 2
unfolding half_int64
middle first latest h = ground arith

less_number :
    (first latest : ℕ) → latest + first < two_63 → lt_int64 first latest ≡ ltb first latest
less_number first latest h = ground arith

module _ (B : BTree) (ndb : NodeDatabase B) (f : ℕ) where
  -- one round of the search, where the answer for the middle is known
  search_round :
      (fuel first latest : ℕ) (has : Bool)
      → lt_int64 first latest ≡ true
      → has_version B ndb (half_int64 ((latest + first) % two_64)) ≡ ok has
      → search_first B (suc fuel) ndb first latest ≡ elim has [
        | true ↦ search_first B fuel ndb first (half_int64 ((latest + first) % two_64))
        | false ↦
            search_first B fuel ndb ((half_int64 ((latest + first) % two_64) + 1) % two_64) latest
      ]
  unfolding search_first
  search_round fuel first latest has l h = rw (search_first, l, h) refl

  search_step :
      (fuel first latest : ℕ) (has : Bool)
      → latest + first < two_63
      → ltb first latest ≡ true
      → has_version B ndb ((latest + first) / 2) ≡ ok has
      → search_first B (suc fuel) ndb first latest ≡ elim has [
        | true ↦ search_first B fuel ndb first ((latest + first) / 2)
        | false ↦ search_first B fuel ndb ((latest + first) / 2 + 1) latest
      ]
  search_step fuel first latest has small l h =
      let m = middle first latest small in
      let next : ((latest + first) / 2 + 1) % two_64 ≡ (latest + first) / 2 + 1 = ground arith in
      search_round fuel first latest has (less_number first latest small ∙ l)
        (ap (has_version B ndb) m ∙ h)
      ∙ ap
          (λ v. elim has [
            | true ↦ search_first B fuel ndb first v
            | false ↦ search_first B fuel ndb ((v + 1) % two_64) latest
          ])
          m
      ∙ ap
          (λ v. elim has [
            | true ↦ search_first B fuel ndb first ((latest + first) / 2)
            | false ↦ search_first B fuel ndb v latest
          ])
          next

  search_end :
      (fuel first latest : ℕ)
      → latest + first < two_63
      → ltb first latest ≡ false
      → search_first B (suc fuel) ndb first latest ≡ ok latest
  unfolding search_first
  search_end fuel first latest small l = rw (search_first, less_number first latest small, l) refl

  search_first-range :
      (n first latest : ℕ)
      → latest - first < 2 ^ n
      → latest + f < two_63
      → first ≤ f
      → f ≤ latest
      → ((v : ℕ) → v ≤ latest → has_version B ndb v ≡ ok (leb f v))
      → search_first B (suc n) ndb first latest ≡ ok f
  search_first-range zero first latest d s a b h =
      search_end 0 first latest (omega arith) (ground arith) ∙ ap ok (omega arith)
  search_first-range (suc n) first latest d s a b h = elim (Bool-cases (ltb first latest)) [
    | inr e ↦ search_end (suc n) first latest (omega arith) e ∙ ap ok (ground arith)
    | inl e ↦
        let v = (latest + first) / 2 in
        let below : v ≤ latest = ground arith in
        elim (Bool-cases (leb f v)) [
          | inl c ↦
              search_step (suc n) first latest true (omega arith) e (h v below ∙ ap ok c)
              ∙ search_first-range n first v (ground arith) (omega arith) a (ground arith)
                  (λ u q. h u (omega arith))
          | inr c ↦
              search_step (suc n) first latest false (omega arith) e (h v below ∙ ap ok c)
              ∙ search_first-range n (v + 1) latest (ground arith) s (ground arith) b h
        ]
  ]

  -- Among the versions up to the latest one, those from `f` on exist and no others do, and the sum
  -- of the latest one and `f` fits an `int64`: then the search from 0 ends within 64 rounds and
  -- finds `f`.
  pub search_first-first :
      (latest : ℕ)
      → latest + f < two_63
      → f ≤ latest
      → ((v : ℕ) → v ≤ latest → has_version B ndb v ≡ ok (leb f v))
      → search_first B 64 ndb 0 latest ≡ ok f
  search_first-first latest fits b h =
      search_first-range 63 0 latest (omega arith) fits (omega arith) b h
