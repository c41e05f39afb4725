-- ===== src/StorageKey/Laws.antt =====
-- node.go: `GetNodeKey` on what `GetKey` makes, and the order of these keys.
use iavl.Prelude.{
  ℕ, zero, suc, ◌+◌, ◌*◌, ◌/◌, ◌%◌, ◌^◌, ◌<◌, ◌≡◌, ◌∙◌, refl, sym, ap, [], ◌∷◌, ◌++◌, ltb, length,
  take, drop, ok, arith, length-append, take-append, drop-append, Ordering, compare, false,
  append-nil,
}
use iavl.Prelude.Words.{two_64, two_63, two_32}
use iavl.Bytes.{Bytes, compare_bytes}
use iavl.Node.{NodeKey}
use iavl.StorageKey.{put_big_endian, big_endian, get_key, get_node_key}
use native.Mathlib.Nat.{pow-suc}

pub length-put_big_endian : (n x : ℕ) → length (put_big_endian n x) ≡ n
unfolding put_big_endian
length-put_big_endian zero x = refl
length-put_big_endian (suc n) x = omega (
  arith,
  length-append (put_big_endian n (x / 256)) (x % 256 ∷ []),
  length-put_big_endian n (x / 256),
)

pub big_endian-append :
    (acc b : ℕ) (bz : Bytes) → big_endian acc (bz ++ b ∷ []) ≡ big_endian acc bz * 256 + b
unfolding big_endian
big_endian-append acc b [] = refl
big_endian-append acc b (c ∷ bz) = big_endian-append (acc * 256 + c) b bz

pub big_endian-put_big_endian : (n x : ℕ) → x < 256 ^ n → big_endian 0 (put_big_endian n x) ≡ x
unfolding put_big_endian big_endian
big_endian-put_big_endian zero x h = omega arith
big_endian-put_big_endian (suc n) x h = omega (
  arith,
  big_endian-append 0 (x % 256) (put_big_endian n (x / 256)),
  big_endian-put_big_endian n (x / 256) (omega (arith, pow-suc 256 n)),
)

pub length-get_key : (nk : NodeKey) → length (get_key nk) ≡ 12
unfolding get_key
length-get_key nk = omega (
  arith,
  length-append (put_big_endian 8 nk.version) (put_big_endian 4 nk.nonce),
  length-put_big_endian 8 nk.version,
  length-put_big_endian 4 nk.nonce,
)

-- A node key that was written is read back, if its version is an `int64` and its nonce a `uint32`.
pub get_node_key-get_key :
    (nk : NodeKey) → nk.version < two_64 → nk.nonce < two_32 → get_node_key (get_key nk) ≡ ok nk
unfolding get_node_key get_key
get_node_key-get_key nk hv hn =
    let v = put_big_endian 8 nk.version in
    let m = put_big_endian 4 nk.nonce in
    let v_8 = length-put_big_endian 8 nk.version in
    let m_4 = length-put_big_endian 4 nk.nonce in
    let front : take 8 (v ++ m) ≡ v = ap (λ n. take n (v ++ m)) (sym v_8) ∙ take-append v m in
    let back : drop 8 (v ++ m) ≡ m = ap (λ n. drop n (v ++ m)) (sym v_8) ∙ drop-append v m in
    let whole : take 4 m ≡ m =
      ap (take 4) (sym (append-nil m)) ∙ ap (λ n. take n (m ++ [])) (sym m_4) ∙ take-append m [] in
    let long : ltb (length (v ++ m)) 8 ≡ false = ground (arith, length-append v m) in
    let long' : ltb (length m) 4 ≡ false = ground arith in
    rw (back, long, long')
      (rw
        (
          front,
          whole,
          big_endian-put_big_endian 8 nk.version hv,
          big_endian-put_big_endian 4 nk.nonce hn,
        )
        refl)

-- Equal front parts leave the order to what follows, and others decide it.
compare-append :
    (xs ys us vs : Bytes)
    → length xs ≡ length ys
    → compare_bytes (xs ++ us) (ys ++ vs) ≡ elim (compare_bytes xs ys) [
      | Ordering.lt ↦ Ordering.lt
      | Ordering.eq ↦ compare_bytes us vs
      | Ordering.gt ↦ Ordering.gt
    ]
unfolding compare_bytes
compare-append [] [] us vs e = refl
compare-append [] (y ∷ ys) us vs e = absurd (omega arith)
compare-append (x ∷ xs) [] us vs e = absurd (omega arith)
compare-append (x ∷ xs) (y ∷ ys) us vs e = ground (arith, compare-append xs ys us vs)

put_big_endian-order :
    (n x y : ℕ)
    → x < 256 ^ n
    → y < 256 ^ n
    → compare_bytes (put_big_endian n x) (put_big_endian n y) ≡ compare x y
unfolding put_big_endian compare_bytes
put_big_endian-order zero x y h k = ground arith
put_big_endian-order (suc n) x y h k =
    let power = pow-suc 256 n in
    let top = put_big_endian-order n (x / 256) (y / 256) (omega arith) (omega arith) in
    let e = length-put_big_endian n (x / 256) ∙ sym (length-put_big_endian n (y / 256)) in
    compare-append (put_big_endian n (x / 256)) (put_big_endian n (y / 256)) (x % 256 ∷ [])
      (y % 256 ∷ []) e
    ∙ rw top (ground arith)

-- The keys of nodes sort, byte by byte, as their versions do, and with the same version as their
-- nonces do, if the versions are not negative `int64` values and the nonces are `uint32` values.
pub get_key-order :
    (a b : NodeKey)
    → a.version < two_63
    → b.version < two_63
    → a.nonce < two_32
    → b.nonce < two_32
    → compare_bytes (get_key a) (get_key b) ≡ elim (compare a.version b.version) [
      | Ordering.lt ↦ Ordering.lt
      | Ordering.eq ↦ compare a.nonce b.nonce
      | Ordering.gt ↦ Ordering.gt
    ]
unfolding get_key
get_key-order a b va vb na nb =
    let e = length-put_big_endian 8 a.version ∙ sym (length-put_big_endian 8 b.version) in
    compare-append (put_big_endian 8 a.version) (put_big_endian 8 b.version)
      (put_big_endian 4 a.nonce) (put_big_endian 4 b.nonce) e
    ∙ rw (put_big_endian-order 8 a.version b.version (omega arith) (omega arith)) (
        ap
          (λ o. elim (compare a.version b.version) [
            | Ordering.lt ↦ Ordering.lt
            | Ordering.eq ↦ o
            | Ordering.gt ↦ Ordering.gt
          ])
          (put_big_endian-order 4 a.nonce b.nonce na nb))
