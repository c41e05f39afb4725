-- ===== src/NodeStore/RoundTrip.antt =====
-- node.go: `MakeNode` on what `writeBytes` writes.
use iavl.Prelude.{
  ℕ, ◌+◌, ◌%◌, ◌≤◌, ◌<◌, ◌≡◌, ◌∙◌, refl, ap, Bool, true, false, none, some, ◌==◌, get_or,
  if◌then◌else◌, [], ◌++◌, length, length-append, append_assoc, Result, ok, arith, ◌||◌,
}
use iavl.Prelude.Words.{two_8, two_32, two_63, two_64, lt_int64}
use iavl.Bytes.{Bytes}
use iavl.Encoding.{encode_varint, encode_bytes}
use iavl.Encoding.RoundTrip.{encode_bytes-append}
use iavl.Node.{NodeKey, Node, nil, node, Fields, is_leaf}
use iavl.StorageKey.{get_key}
use iavl.StorageKey.Laws.{get_node_key-get_key}
use iavl.NodeStore.{
  sign_extend, make_node, write_bytes, write_children, write_right, read_leaf, read_children,
  leaf_hash_bytes, child_mode,
}
use iavl.NodeStore.Reads.{
  encode_varint-append, encode_32_bytes_hash-bytes, length-varint, read_varint-encode_varint,
  read_bytes-encode_bytes, length-bytes, ChildKey, Part, child-Part, child_mode-flags,
}

-- The nodes that are saved: a leaf has a value, an inner node a hash and the keys of its children.
pub data IsStored : Fields → Type 0 where
  stored_leaf :
      {f : Fields} (v : Bytes)
      → f.subtree_height ≡ 0
      → f.size < two_64
      → f.value ≡ some v
      → IsStored f
  stored_inner :
      {f : Fields} (h l r : Bytes)
      → 0 < f.subtree_height
      → f.subtree_height < two_8
      → f.size < two_64
      → f.hash ≡ some h
      → length h ≡ 32
      → f.left_node_key ≡ some l
      → f.right_node_key ≡ some r
      → ChildKey l
      → ChildKey r
      → IsStored f

-- What is read before the body.
abbrev pub heading : NodeKey → Fields → Fields
heading nk f = record {
  key = f.key;
  value = none;
  hash = none;
  node_key = some nk;
  left_node_key = none;
  right_node_key = none;
  size = f.size;
  subtree_height = f.subtree_height;
  is_legacy = false;
}

-- The node that is made from the bytes of a node: without its children in memory, under the key
-- that was asked for, and with its hash.
abbrev pub loaded : (Bytes → Bytes) → NodeKey → Fields → Node
loaded sum_256 nk f =
    node
      (if is_leaf f
        then record f {
          node_key = some nk;
          left_node_key = none;
          right_node_key = none;
          is_legacy = false;
          hash = some (sum_256 (leaf_hash_bytes sum_256 f nk.version));
        }
        else record f { node_key = some nk; value = none; is_legacy = false })
      nil nil

sign_extend-low : (h : ℕ) → h < two_8 → (sign_extend h < two_64) × (sign_extend h % two_8 ≡ h)
unfolding sign_extend
sign_extend-low h k = ground arith

mode_in_range : (m : ℕ) → m ≤ 3 → (lt_int64 m 0 || lt_int64 3 m) ≡ false
mode_in_range m h = ground arith

module _ (sum_256 : Bytes → Bytes) (byte_writer : Bool) (f : Fields) (nk : NodeKey) where
  abbrev pub front : Bytes
  front =
      encode_bytes
        (encode_varint byte_writer (encode_varint byte_writer [] (sign_extend f.subtree_height))
          f.size)
        f.key

  pub front-append :
      (t : Bytes)
      → front ++ t
        ≡ encode_varint byte_writer [] (sign_extend f.subtree_height)
          ++ (encode_varint byte_writer [] f.size ++ (encode_bytes [] f.key ++ t))
  front-append t =
      let h = encode_varint byte_writer [] (sign_extend f.subtree_height) in
      let s = encode_varint byte_writer [] f.size in
      ap (λ w. w ++ t) (encode_bytes-append (encode_varint byte_writer h f.size) f.key)
      ∙ ap (λ w. (w ++ encode_bytes [] f.key) ++ t) (encode_varint-append byte_writer h f.size)
      ∙ append_assoc (h ++ s) (encode_bytes [] f.key) t
      ∙ append_assoc h s (encode_bytes [] f.key ++ t)

  abbrev read_body : Bytes → Bool → Result Node
  read_body t b =
      if b then read_leaf sum_256 (heading nk f) nk.version t else read_children (heading nk f) t

  make_heading :
      (t : Bytes)
      → f.subtree_height < two_8
      → f.size < two_64
      → nk.version < two_64
      → nk.nonce < two_32
      → length f.key + length t + 10 < two_63
      → make_node sum_256 (get_key nk) (front ++ t) ≡ read_body t (is_leaf f)
  unfolding make_node
  make_heading t hh hs hv hn fits =
      let (wide, low) = sign_extend-low f.subtree_height hh in
      let exact : (sign_extend f.subtree_height == sign_extend f.subtree_height) ≡ true =
        ground arith in
      rw
        (
          front-append t,
          read_varint-encode_varint byte_writer (sign_extend f.subtree_height)
              (encode_varint byte_writer [] f.size ++ (encode_bytes [] f.key ++ t)) wide,
        )
        (rw low (
          rw exact (
            rw
              (
                read_varint-encode_varint byte_writer f.size (encode_bytes [] f.key ++ t) hs,
                read_bytes-encode_bytes f.key t
                    (omega (arith, length-append (encode_bytes [] f.key) t, length-bytes f.key)),
                get_node_key-get_key nk hv hn,
              )
              refl)))

  read_leaf-part :
      (v rest : Bytes)
      → f.subtree_height ≡ 0
      → f.value ≡ some v
      → length v + length rest + 10 < two_63
      → read_leaf sum_256 (heading nk f) nk.version (encode_bytes [] v ++ rest)
        ≡ ok (loaded sum_256 nk f)
  unfolding read_leaf leaf_hash_bytes
  read_leaf-part v rest e q fits =
      let leaf : (f.subtree_height == 0) ≡ true = ground arith in
      rw
        (read_bytes-encode_bytes v rest
          (omega (arith, length-append (encode_bytes [] v) rest, length-bytes v)))
        (rw (leaf, q) refl)

  read_children-part :
      (h l r rest : Bytes) (pl : Part byte_writer l) (pr : Part byte_writer r)
      → is_leaf f ≡ false
      → f.hash ≡ some h
      → f.left_node_key ≡ some l
      → f.right_node_key ≡ some r
      → length h + length rest + 110 < two_63
      → read_children (heading nk f) (
          encode_bytes [] h
          ++ (encode_varint byte_writer [] (child_mode l (some r))
              ++ (pl.part ++ (pr.part ++ rest))))
        ≡ ok (loaded sum_256 nk f)
  unfolding read_children
  read_children-part h l r rest pl pr inn q_h q_l q_r fits =
      let m = child_mode l (some r) in
      let (left_flag, right_flag, small) = child_mode-flags l r in
      let in_range : (lt_int64 m 0 || lt_int64 3 m) ≡ false = mode_in_range m small in
      let after_left = pr.part ++ rest in
      let after_mode = pl.part ++ after_left in
      let n_1 = length-append (encode_bytes [] h) (encode_varint byte_writer [] m ++ after_mode) in
      let n_2 = length-append (encode_varint byte_writer [] m) after_mode in
      let n_3 = length-append pl.part after_left in
      let n_4 = length-append pr.part rest in
      let n_5 = length-varint byte_writer m (omega arith) in
      let n_6 = length-bytes h in
      let s_l = pl.short in
      let s_r = pr.short in
      rw
        (
          read_bytes-encode_bytes h (encode_varint byte_writer [] m ++ after_mode) (omega arith),
          read_varint-encode_varint byte_writer m after_mode (omega arith),
        )
        (rw in_range (
          rw (left_flag, pl.read after_left (omega arith))
            (rw (right_flag, pr.read rest (omega arith)) (rw (inn, q_h, q_l, q_r) refl))))

  body_short :
      (h l r : Bytes) (pl : Part byte_writer l) (pr : Part byte_writer r)
      → length (
          encode_bytes [] h
          ++ (encode_varint byte_writer [] (child_mode l (some r)) ++ (pl.part ++ pr.part)))
        ≤ length h + 104
  body_short h l r pl pr =
      let m = child_mode l (some r) in
      let (left_flag, right_flag, small) = child_mode-flags l r in
      let v = encode_varint byte_writer [] m in
      let s_l = pl.short in
      let s_r = pr.short in
      omega (
        arith,
        length-append (encode_bytes [] h) (v ++ (pl.part ++ pr.part)),
        length-append v (pl.part ++ pr.part),
        length-append pl.part pr.part,
        length-bytes h,
        length-varint byte_writer m (omega arith),
      )

  pub write_leaf-front :
      (a b : Node) (v : Bytes)
      → f.subtree_height ≡ 0
      → f.value ≡ some v
      → write_bytes byte_writer (node f a b) [] ≡ ok (front ++ encode_bytes [] v)
  unfolding write_bytes
  write_leaf-front a b v e q =
      let leaf : (f.subtree_height == 0) ≡ true = ground arith in
      rw (leaf, q) (ap ok (encode_bytes-append front v))

  write_children-parts :
      (w : Bytes) (l r : Bytes) (pl : Part byte_writer l) (pr : Part byte_writer r)
      → write_children byte_writer (some l) (some r) w
        ≡ ok (w ++ (encode_varint byte_writer [] (child_mode l (some r)) ++ (pl.part ++ pr.part)))
  unfolding write_children write_right
  write_children-parts w l r pl pr =
      let m = child_mode l (some r) in
      let (left_flag, right_flag, small) = child_mode-flags l r in
      let v = encode_varint byte_writer [] m in
      rw (left_flag, encode_varint-append byte_writer w m, pl.written (w ++ v))
        (rw (right_flag, pr.written ((w ++ v) ++ pl.part))
          (ap ok (append_assoc (w ++ v) pl.part pr.part ∙ append_assoc w v (pl.part ++ pr.part))))

  pub write_inner-front :
      (a b : Node) (h l r : Bytes) (pl : Part byte_writer l) (pr : Part byte_writer r)
      → is_leaf f ≡ false
      → f.hash ≡ some h
      → length h ≡ 32
      → f.left_node_key ≡ some l
      → f.right_node_key ≡ some r
      → write_bytes byte_writer (node f a b) []
        ≡ ok (
            front
            ++ (encode_bytes [] h
                ++ (encode_varint byte_writer [] (child_mode l (some r)) ++ (pl.part ++ pr.part))))
  unfolding write_bytes
  write_inner-front a b h l r pl pr inn q_h e q_l q_r =
      let body = encode_varint byte_writer [] (child_mode l (some r)) ++ (pl.part ++ pr.part) in
      rw (inn, q_h, q_l, q_r, encode_32_bytes_hash-bytes front h e)
        (write_children-parts (encode_bytes front h) l r pl pr
          ∙ ap ok (
              ap (λ w. w ++ body) (encode_bytes-append front h)
              ∙ append_assoc front (encode_bytes [] h) body))

  -- A node that can be saved is written without an error, and whatever follows its bytes, the node
  -- that is made from them is the one that was written, under the key that was asked for, without
  -- children in memory, with the hash of its contents if it is a leaf; provided that the version and
  -- the nonce of the key fit their types and that all the bytes fit a Go slice.
  pub make_node-write_bytes :
      (a b : Node) (rest : Bytes)
      → IsStored f
      → nk.version < two_64
      → nk.nonce < two_32
      → length f.key + length (get_or f.value []) + length rest + 300 < two_63
      → (written : Bytes) × (write_bytes byte_writer (node f a b) [] ≡ ok written)
        × (make_node sum_256 (get_key nk) (written ++ rest) ≡ ok (loaded sum_256 nk f))
  make_node-write_bytes a b rest (stored_leaf v e hs q) hv hn fits =
      let body = encode_bytes [] v in
      let size : length (get_or f.value []) ≡ length v = ap (λ o. length (get_or o [])) q in
      let leaf : is_leaf f ≡ true = ground arith in
      (
        front ++ body,
        write_leaf-front a b v e q,
        ap (make_node sum_256 (get_key nk)) (append_assoc front body rest)
            ∙ make_heading (body ++ rest) (omega arith) hs hv hn
                (omega (arith, length-append body rest, length-bytes v))
            ∙ ap (read_body (body ++ rest)) leaf
            ∙ read_leaf-part v rest e q (omega arith),
      )
  make_node-write_bytes a b rest (stored_inner h l r hp hh hs q_h e q_l q_r kl kr) hv hn fits =
      let pl = child-Part byte_writer l kl in
      let pr = child-Part byte_writer r kr in
      let m = child_mode l (some r) in
      let inn : is_leaf f ≡ false = ground arith in
      let v = encode_varint byte_writer [] m in
      let body = encode_bytes [] h ++ (v ++ (pl.part ++ pr.part)) in
      let split : body ++ rest ≡ encode_bytes [] h ++ (v ++ (pl.part ++ (pr.part ++ rest))) =
        rw
          (
            append_assoc (encode_bytes [] h) (v ++ (pl.part ++ pr.part)) rest,
            append_assoc v (pl.part ++ pr.part) rest,
            append_assoc pl.part pr.part rest,
          )
          refl in
      (
        front ++ body,
        write_inner-front a b h l r pl pr inn q_h e q_l q_r,
        ap (make_node sum_256 (get_key nk)) (append_assoc front body rest)
            ∙ make_heading (body ++ rest) hh hs hv hn
                (omega (arith, length-append body rest, body_short h l r pl pr))
            ∙ ap (read_body (body ++ rest)) inn
            ∙ ap (read_children (heading nk f)) split
            ∙ read_children-part h l r rest pl pr inn q_h q_l q_r (omega arith),
      )
