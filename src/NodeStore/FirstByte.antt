-- ===== src/NodeStore/FirstByte.antt =====
-- node.go: the first byte of a stored node, by which the node database knows it from a reference.
use iavl.Prelude.{
  ℕ, ◌-◌, ◌<◌, ◌≡◌, ◌≢◌, refl, sym, ap, ◌∙◌, Bool, false, [], ◌∷◌, ◌++◌, Result, ok, err, Error,
  arith,
}
use iavl.Prelude.Words.{two_64}
use iavl.Bytes.{Bytes}
use iavl.Encoding.{
  encode_varint, encode_bytes, decode_varint, uvarint, varint, uvarint_loop, unzigzag, decode_count,
}
use iavl.Encoding.RoundTrip.{decode_varint-encode_varint}
use iavl.Node.{NodeKey, Node, node, Fields, is_leaf}
use iavl.NodeStore.{write_bytes, sign_extend}
use iavl.NodeStore.RoundTrip.{
  IsStored, stored_leaf, stored_inner, write_leaf-front, write_inner-front, front-append,
}
use iavl.NodeStore.Reads.{child-Part}

decode_varint-115 : (t : Bytes) → decode_varint (115 ∷ t) ≡ ok (two_64 - 58, 1)
unfolding decode_varint varint uvarint uvarint_loop unzigzag decode_count
decode_varint-115 t = refl

not_reference :
    (byte_writer : Bool) (h : ℕ) (t u : Bytes)
    → h < 128
    → encode_varint byte_writer [] (sign_extend h) ++ t ≢ 115 ∷ u
unfolding sign_extend
not_reference byte_writer h t u small e =
    let extended : sign_extend h ≡ h = ground arith in
    let read = decode_varint-encode_varint byte_writer (sign_extend h) t (ground arith) in
    let at : sign_extend h ≡ two_64 - 58 =
      first_of (sym read ∙ ap decode_varint e ∙ decode_varint-115 u) in
    ground arith
  where
    first_of : {a b c d : ℕ} → ◌≡◌ {A = Result (ℕ × ℕ)} (ok (a, b)) (ok (c, d)) → a ≡ c
    first_of q = cc

decode_varint-nil : decode_varint [] ≡ err Error.buffer_too_small
unfolding decode_varint varint uvarint uvarint_loop unzigzag decode_count
decode_varint-nil = refl

nothing_written :
    (byte_writer : Bool) (h : ℕ) (t : Bytes)
    → h < 128
    → encode_varint byte_writer [] (sign_extend h) ++ t ≢ []
unfolding sign_extend
nothing_written byte_writer h t small e =
    let read = decode_varint-encode_varint byte_writer (sign_extend h) t (ground arith) in
    failed (sym read ∙ ap decode_varint e ∙ decode_varint-nil)
  where
    failed : {x : ℕ × ℕ} {m : Error} → ok x ≡ err m → ⊥
    failed q = cc

-- The bytes of a node that can be saved, whose height is not negative, do not begin with the prefix
-- of a reference, and there is at least one.
pub record NodeBytes (r : Result Bytes) : Type 0 where
  pub first : ℕ
  pub rest : Bytes
  pub written : r ≡ ok (first ∷ rest)
  pub differs : first ≢ 115

of_bytes :
    (byte_writer : Bool) (h : ℕ) (t : Bytes) (r : Result Bytes) (w : Bytes)
    → h < 128
    → encode_varint byte_writer [] (sign_extend h) ++ t ≡ w
    → r ≡ ok w
    → NodeBytes r
of_bytes byte_writer h t r [] small e q = absurd (nothing_written byte_writer h t small e)
of_bytes byte_writer h t r (x ∷ rest) small e q = record {
  first = x;
  rest = rest;
  written = q;
  differs = λ c. not_reference byte_writer h t rest small (e ∙ ap (λ y. y ∷ rest) c);
}

-- These two do not matter to what is written.
abbrev no_hash : Bytes → Bytes
no_hash bz = bz

abbrev no_key : NodeKey
no_key = record { version = 0; nonce = 0 }

pub write_bytes-NodeBytes :
    (byte_writer : Bool) (f : Fields) (a b : Node)
    → IsStored f
    → f.subtree_height < 128
    → NodeBytes (write_bytes byte_writer (node f a b) [])
write_bytes-NodeBytes byte_writer f a b (stored_leaf v e hs q) small =
    of_bytes byte_writer f.subtree_height _ _ _ small
      (sym (front-append no_hash byte_writer f no_key (encode_bytes [] v)))
      (write_leaf-front no_hash byte_writer f no_key a b v e q)
write_bytes-NodeBytes byte_writer f a b (stored_inner h l r hp hh hs q_h e q_l q_r kl kr) small =
    let inn : is_leaf f ≡ false = ground arith in
    of_bytes byte_writer f.subtree_height _ _ _ small
      (sym (front-append no_hash byte_writer f no_key _))
      (write_inner-front no_hash byte_writer f no_key a b h l r (child-Part byte_writer l kl)
        (child-Part byte_writer r kr) inn q_h e q_l q_r)
