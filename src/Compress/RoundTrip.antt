-- ===== src/Compress/RoundTrip.antt =====
-- compress.go: an export through `CompressExporter.Next` and `CompressImporter.Add`.
use iavl.Prelude.{
  ℕ, ◌+◌, ◌-◌, ◌%◌, ◌<◌, ◌≤◌, ◌≡◌, ◌∙◌, refl, sym, ap, List, [], ◌∷◌, ◌++◌, true, false, ◌==◌, ltb,
  length, take, drop, Result, ok, ◌>>=◌, arith, append_assoc, append-nil, panic, stuck, err,
  drop-append, Bool-cases, inl, inr,
}
use iavl.Prelude.Words.{two_64}
use iavl.Bytes.{Bytes}
use iavl.Encoding.{put_uvarint}
use iavl.Encoding.RoundTrip.{uvarint-put_uvarint, put_uvarint_nonempty}
use iavl.Compress.{
  ExportNode, max_int64, diff_offset, delta_encode, delta_decode, delta_decode_with,
  CompressExporter, compress_branch, compress_next, CompressImporter, restore_branch, compress_add,
}

diff_offset-shared :
    (a b : Bytes)
    → (diff_offset a b ≤ length a)
      × (diff_offset a b ≤ length b)
      × (take (diff_offset a b) a ++ drop (diff_offset a b) b ≡ b)
unfolding diff_offset
diff_offset-shared [] b = (omega arith, omega arith, refl)
diff_offset-shared (x ∷ a) [] = (omega arith, omega arith, refl)
diff_offset-shared (x ∷ a) (y ∷ b) = elim (Bool-cases (x == y)) [
  | inl e ↦
      let (h, k, q) = diff_offset-shared a b in
      let same : x ≡ y = ground arith in
      rw e (omega arith, omega arith, rw same (ap (λ l. y ∷ l) q))
  | inr e ↦ rw e (omega arith, omega arith, refl)
]

delta_decode-delta_encode :
    (key last_key : Bytes)
    → length key < two_64
    → delta_decode (delta_encode key last_key) last_key ≡ ok key
unfolding delta_decode delta_encode
delta_decode-delta_encode key last_key h =
    let d = diff_offset last_key key in
    let (h_a, h_b, q) = diff_offset-shared last_key key in
    let some_bytes : (length (put_uvarint d) == 0) ≡ false =
      ground (arith, put_uvarint_nonempty d) in
    let read = uvarint-put_uvarint d (drop d key) (omega arith) in
    let room : ltb (length last_key) d ≡ false = ground arith in
    ap (delta_decode_with (put_uvarint d ++ drop d key) last_key) read
    ∙ elim (Bool-cases (d == 0)) [
      | inl e ↦
          let none : d ≡ 0 = ground arith in
          rw (some_bytes, e) (rw (drop-append (put_uvarint d) (drop d key)) (rw none refl))
      | inr e ↦ rw (some_bytes, e, room) (rw (drop-append (put_uvarint d) (drop d key)) (ap ok q))
    ]

-- The nodes of an export in their order, each inner node behind its two subtrees and with the
-- least key of its right subtree; and the least key of them all.
pub data Exports : List ExportNode → Bytes → Type 0 where
  exports_leaf :
      (n : ExportNode)
      → n.height ≡ 0
      → n.version < two_64
      → length n.key < two_64
      → Exports (n ∷ []) n.key
  exports_branch :
      (n : ExportNode) (ls rs : List ExportNode) (left : Bytes)
      → (n.height == 0) ≡ false
      → n.version < two_64
      → Exports ls left
      → Exports rs n.key
      → Exports (ls ++ (rs ++ (n ∷ []))) left

-- An export that runs through the compression and its inverse.
unfoldable pub transfer :
    CompressExporter
    → CompressImporter
    → List ExportNode
    → Result (List ExportNode × CompressExporter × CompressImporter)
unfolding compress_next compress_add
transfer e i [] = ok ([], e, i)
transfer e i (n ∷ ns) = do
  (n, e) ← compress_next e n
  (n, i) ← compress_add i n
  (out, e, i) ← transfer e i ns
  ok (n ∷ out, e, i)

abbrev pub exporter : Bytes → List ℕ → CompressExporter
exporter last_key versions = record { last_key = last_key; version_stack = versions }

abbrev pub importer : Bytes → List Bytes → List ℕ → CompressImporter
importer last_key min_keys versions = record {
  last_key = last_key;
  min_key_stack = min_keys;
  version_stack = versions;
}

-- What is put in front of the nodes that still pass.
abbrev before :
    List ExportNode
    → Result (List ExportNode × CompressExporter × CompressImporter)
    → Result (List ExportNode × CompressExporter × CompressImporter)
before ns res = do (out, e, i) ← res; ok (ns ++ out, e, i)

record Transferred (ns : List ExportNode) (min_key last_key : Bytes) (min_keys : List Bytes)
    (versions : List ℕ) : Type 0 where
  pub last : Bytes
  pub version : ℕ
  pub fits : version < two_64
  pub result :
      (rest : List ExportNode)
      → transfer (exporter last_key versions) (importer last_key min_keys versions) (ns ++ rest)
        ≡ before ns (
            transfer
              (exporter last (version ∷ versions))
              (importer last (min_key ∷ min_keys) (version ∷ versions))
              rest)

max_int64-fits : (a b : ℕ) → a < two_64 → b < two_64 → max_int64 a b < two_64
unfolding max_int64
max_int64-fits a b h k = ground arith

restored : (v m : ℕ) → v < two_64 → m < two_64 → ((v + (two_64 - m)) % two_64 + m) % two_64 ≡ v
restored v m h k = omega arith

leaf_lem :
    (n : ExportNode) (last_key : Bytes) (min_keys : List Bytes) (versions : List ℕ)
    → n.height ≡ 0
    → n.version < two_64
    → length n.key < two_64
    → Transferred (n ∷ []) n.key last_key min_keys versions
unfolding transfer compress_next compress_add
leaf_lem n last_key min_keys versions e_h h_v h_k =
    let lf : (n.height == 0) ≡ true = ground arith in
    record {
      last = n.key;
      version = n.version;
      fits = h_v;
      result = λ rest. rw lf (rw lf (rw (delta_decode-delta_encode n.key last_key h_k) refl));
    }

before-append :
    (ls ms : List ExportNode) (res : Result (List ExportNode × CompressExporter × CompressImporter))
    → before ls (before ms res) ≡ before (ls ++ ms) res
before-append ls ms panic = refl
before-append ls ms stuck = refl
before-append ls ms (err failure) = refl
before-append ls ms (ok (out, e, i)) = ap (λ l. ok (l, e, i)) (sym (append_assoc ls ms out))

-- The inner node behind its subtrees.
top_lem :
    (n : ExportNode) (last_key left : Bytes) (min_keys : List Bytes) (v w : ℕ) (versions : List ℕ)
    (rest : List ExportNode)
    → (n.height == 0) ≡ false
    → n.version < two_64
    → v < two_64
    → w < two_64
    → transfer
        (exporter last_key (w ∷ v ∷ versions))
        (importer last_key (n.key ∷ left ∷ min_keys) (w ∷ v ∷ versions))
        (n ∷ rest)
      ≡ before (n ∷ []) (
          transfer
            (exporter last_key (n.version ∷ versions))
            (importer last_key (left ∷ min_keys) (n.version ∷ versions))
            rest)
unfolding transfer compress_next compress_add compress_branch restore_branch
top_lem n last_key left min_keys v w versions rest e_h h_n h_v h_w =
    let back = restored n.version (max_int64 w v) h_n (max_int64-fits w v h_w h_v) in
    rw e_h (rw e_h (rw back refl))

branch_lem :
    (n : ExportNode) (ls rs : List ExportNode) (left last_key : Bytes) (min_keys : List Bytes)
    (versions : List ℕ)
    → (n.height == 0) ≡ false
    → n.version < two_64
    → (l : Transferred ls left last_key min_keys versions)
    → Transferred rs n.key l.last (left ∷ min_keys) (l.version ∷ versions)
    → Transferred (ls ++ (rs ++ (n ∷ []))) left last_key min_keys versions
branch_lem n ls rs left last_key min_keys versions e_h h_n l r = record {
  last = r.last;
  version = n.version;
  fits = h_n;
  result = λ rest.
      let after =
        transfer (exporter r.last (n.version ∷ versions))
          (importer r.last (left ∷ min_keys) (n.version ∷ versions)) rest in
      ap (transfer (exporter last_key versions) (importer last_key min_keys versions))
        (append_assoc ls (rs ++ (n ∷ [])) rest ∙ ap (λ t. ls ++ t) (append_assoc rs (n ∷ []) rest))
      ∙ l.result (rs ++ (n ∷ rest))
      ∙ ap (before ls) (r.result (n ∷ rest))
      ∙ ap (λ t. before ls (before rs t))
          (top_lem n r.last left min_keys l.version r.version versions rest e_h h_n l.fits r.fits)
      ∙ ap (before ls) (before-append rs (n ∷ []) after)
      ∙ before-append ls (rs ++ (n ∷ [])) after;
}

transferred_lem :
    (ns : List ExportNode) (min_key last_key : Bytes) (min_keys : List Bytes) (versions : List ℕ)
    → Exports ns min_key
    → Transferred ns min_key last_key min_keys versions
transferred_lem ns min_key last_key min_keys versions (exports_leaf n e_h h_v h_k) =
    leaf_lem n last_key min_keys versions e_h h_v h_k
transferred_lem ns min_key last_key min_keys versions (exports_branch n ls rs left e_h h_v el er) =
    let l = transferred_lem ls left last_key min_keys versions el in
    branch_lem n ls rs left last_key min_keys versions e_h h_v l
      (transferred_lem rs n.key l.last (left ∷ min_keys) (l.version ∷ versions) er)

-- An export of a tree, its nodes in order with each inner node behind its subtrees and under the
-- least key on its right, passes the compression and its inverse without an error or a panic, and
-- every node comes out with its key and its version as it was.
pub transfer-Exports :
    (ns : List ExportNode) (min_key : Bytes)
    → Exports ns min_key
    → (e : CompressExporter) × (i : CompressImporter) × (transfer
          (exporter [] [])
          (importer [] [] [])
          ns
        ≡ ok (ns, e, i))
unfolding transfer
transfer-Exports ns min_key exported =
    let t = transferred_lem ns min_key [] [] [] exported in
    (
      exporter t.last (t.version ∷ []),
      importer t.last (min_key ∷ []) (t.version ∷ []),
      ap (transfer (exporter [] []) (importer [] [] [])) (sym (append-nil ns))
          ∙ t.result []
          ∙ ap
              (λ l. ok (
                l,
                exporter t.last (t.version ∷ []),
                importer t.last (min_key ∷ []) (t.version ∷ []),
              ))
              (append-nil ns),
    )
