-- ===== src/NodeStore/Reads.antt =====
-- node.go: the parts of a stored node, as `writeBytes` writes and `MakeNode` reads them.
use iavl.Prelude.{
  ℕ, ◌+◌, ◌%◌, ◌≤◌, ◌<◌, ◌≡◌, ◌∙◌, refl, sym, ap, Bool, true, false, some, ◌==◌, [], ◌++◌, length,
  length-append, append_assoc, drop-append, ok, arith, Bool-cases, inl, inr,
}
use iavl.Prelude.Words.{two_32, two_63, two_64}
use iavl.Bytes.{Bytes}
use iavl.Encoding.{
  encode_varint, encode_bytes, encode_32_bytes_hash, encode_uvarint, hash_len_bz, put_uvarint,
}
use iavl.Encoding.Words.{encode_varint-put}
use iavl.Encoding.RoundTrip.{
  encode_bytes-append, decode_uvarint-encode_uvarint, decode_varint-encode_varint,
  decode_bytes-encode_bytes,
}
use iavl.Encoding.Safety.{decode_varint_safe, decode_uvarint_safe}
use iavl.Node.{NodeKey}
use iavl.StorageKey.{get_key}
use iavl.StorageKey.Laws.{get_node_key-get_key, length-get_key}
use iavl.NodeStore.{read_varint, read_bytes, write_child_key, read_child_key, child_mode, has_mode}

pub encode_varint-append :
    (byte_writer : Bool) (w : Bytes) (i : ℕ)
    → encode_varint byte_writer w i ≡ w ++ encode_varint byte_writer [] i
encode_varint-append byte_writer w i =
    encode_varint-put byte_writer w i ∙ ap (λ t. w ++ t) (sym (encode_varint-put byte_writer [] i))

pub encode_32_bytes_hash-bytes :
    (w bz : Bytes) → length bz ≡ 32 → encode_32_bytes_hash w bz ≡ encode_bytes w bz
unfolding encode_32_bytes_hash hash_len_bz encode_bytes encode_uvarint put_uvarint
encode_32_bytes_hash-bytes w bz e = ap (λ n. (w ++ put_uvarint (n % two_64)) ++ bz) (sym e)

pub length-varint :
    (byte_writer : Bool) (i : ℕ) → i < two_64 → length (encode_varint byte_writer [] i) ≤ 10
length-varint byte_writer i h =
    let bz = encode_varint byte_writer [] i ++ [] in
    (decode_varint_safe bz i (length (encode_varint byte_writer [] i))
      (decode_varint-encode_varint byte_writer i [] h)).3

pub read_varint-encode_varint :
    (byte_writer : Bool) (i : ℕ) (rest : Bytes)
    → i < two_64
    → read_varint (encode_varint byte_writer [] i ++ rest) ≡ ok (i, rest)
unfolding read_varint
read_varint-encode_varint byte_writer i rest h =
    rw
      (
        decode_varint-encode_varint byte_writer i rest h,
        drop-append (encode_varint byte_writer [] i) rest,
      )
      refl

pub read_bytes-encode_bytes :
    (bz rest : Bytes)
    → length (encode_bytes [] bz ++ rest) < two_63
    → read_bytes (encode_bytes [] bz ++ rest) ≡ ok (bz, rest)
unfolding read_bytes
read_bytes-encode_bytes bz rest h =
    rw (decode_bytes-encode_bytes bz rest h, drop-append (encode_bytes [] bz) rest) refl

-- A length of at most 10 bytes stands in front of a byte slice.
pub length-bytes : (bz : Bytes) → length (encode_bytes [] bz) ≤ 10 + length bz
unfolding encode_bytes encode_uvarint
length-bytes bz =
    let n = length bz % two_64 in
    let small : n < two_64 = omega arith in
    let count =
      (decode_uvarint_safe (encode_uvarint [] n ++ []) n (length (encode_uvarint [] n))
        (decode_uvarint-encode_uvarint n [] small)).3 in
    omega (arith, length-append (put_uvarint n) bz)

-- The keys that a saved inner node has for its children: a hash, or a version with a nonce.
pub data ChildKey : Bytes → Type 0 where
  legacy_key : {key : Bytes} → length key ≡ 32 → ChildKey key
  new_key : (nk : NodeKey) → nk.version < two_64 → nk.nonce < two_32 → ChildKey (get_key nk)

-- A child key is appended as a part that is read back.
pub record Part (byte_writer : Bool) (key : Bytes) : Type 0 where
  pub part : Bytes
  pub short : length part ≤ 42
  pub written : (w : Bytes) → write_child_key byte_writer (length key == 32) key w ≡ ok (w ++ part)
  pub read :
      (rest : Bytes)
      → length rest + 42 < two_63
      → read_child_key (length key == 32) (part ++ rest) ≡ ok (key, rest)

legacy-Part : (byte_writer : Bool) (key : Bytes) → length key ≡ 32 → Part byte_writer key
unfolding write_child_key read_child_key
legacy-Part byte_writer key e =
    let short = length-bytes key in
    let flag : (length key == 32) ≡ true = ground arith in
    record {
      part = encode_bytes [] key;
      short = omega arith;
      written =
          λ w. rw flag (ap ok (encode_32_bytes_hash-bytes w key e ∙ encode_bytes-append w key));
      read = λ rest fits. rw flag (
          read_bytes-encode_bytes key rest
            (omega (arith, length-append (encode_bytes [] key) rest)));
    }

new-Part :
    (byte_writer : Bool) (nk : NodeKey)
    → nk.version < two_64
    → nk.nonce < two_32
    → Part byte_writer (get_key nk)
unfolding write_child_key read_child_key
new-Part byte_writer nk hv hn =
    let v = encode_varint byte_writer [] nk.version in
    let m = encode_varint byte_writer [] nk.nonce in
    let flag : (length (get_key nk) == 32) ≡ false = ground (arith, length-get_key nk) in
    let wide : nk.nonce < two_64 = omega arith in
    let same : nk.nonce % two_32 ≡ nk.nonce = omega arith in
    let exact : (nk.nonce == nk.nonce % two_32) ≡ true = ground arith in
    record {
      part = v ++ m;
      short = omega (
        arith,
        length-append v m,
        length-varint byte_writer nk.version hv,
        length-varint byte_writer nk.nonce wide,
      );
      written = λ w.
          rw (flag, get_node_key-get_key nk hv hn)
            (ap ok (
              encode_varint-append byte_writer (encode_varint byte_writer w nk.version) nk.nonce
              ∙ ap (λ x. x ++ m) (encode_varint-append byte_writer w nk.version)
              ∙ append_assoc w v m));
      read = λ rest fits.
          rw
            (
              flag,
              append_assoc v m rest,
              read_varint-encode_varint byte_writer nk.version (m ++ rest) hv,
              read_varint-encode_varint byte_writer nk.nonce rest wide,
            )
            (rw (exact, same) refl);
    }

pub child-Part : (byte_writer : Bool) (key : Bytes) → ChildKey key → Part byte_writer key
child-Part byte_writer key (legacy_key e) = legacy-Part byte_writer key e
child-Part byte_writer key (new_key nk hv hn) = new-Part byte_writer nk hv hn

-- The mode tells which of the two child keys are hashes.
pub child_mode-flags :
    (left right : Bytes)
    → (has_mode (child_mode left (some right)) 1 ≡ (length left == 32))
      × (has_mode (child_mode left (some right)) 2 ≡ (length right == 32))
      × (child_mode left (some right) ≤ 3)
child_mode-flags left right = elim (Bool-cases (length left == 32)) [
  | inl l ↦ elim (Bool-cases (length right == 32)) [
    | inl r ↦ rw (l, r) (refl, refl, omega arith)
    | inr r ↦ rw (l, r) (refl, refl, omega arith)
  ]
  | inr l ↦ elim (Bool-cases (length right == 32)) [
    | inl r ↦ rw (l, r) (refl, refl, omega arith)
    | inr r ↦ rw (l, r) (refl, refl, omega arith)
  ]
]
