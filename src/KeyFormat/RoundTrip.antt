-- ===== src/KeyFormat/RoundTrip.antt =====
-- keyformat/key_format.go: `KeyBytes` and `ScanBytes` of a format from `NewKeyFormat`.
use iavl.Prelude.{
  ℕ, zero, suc, ◌+◌, ◌-◌, ◌≤◌, ◌≡◌, ◌∙◌, refl, sym, ap, List, [], ◌∷◌, ◌++◌, false, ltb, ◌==◌,
  if◌then◌else◌, length, take, drop, replicate, ok, >>=-eq-ok, arith, length-append, append_assoc,
  take-append, drop-append, append-nil, Bool-cases, inl, inr,
}
use iavl.Bytes.{Bytes}
use mathlib.Core.Path.{ap₂}
use iavl.KeyFormat.{
  KeyFormat, new_key_format, layout_length, last_is_zero, used_length, last_length, key_length,
  key_bytes, scan_segments, scan_bytes, put_segments,
}
use iavl.KeyFormat.Join.{pad, joined, Fits, put_segments-Fits, length-pad}

-- What a format keeps of the layout.
pub record IsFormatOf (kf : KeyFormat) (prefix : ℕ) (layout : List ℕ) : Type 0 where
  pub same_prefix : kf.prefix ≡ prefix
  pub same_layout : kf.layout ≡ layout
  pub same_unbounded : kf.unbounded ≡ last_is_zero layout
  pub same_length : layout_length layout 1 ≡ ok kf.length

pub new_key_format-IsFormatOf :
    (prefix : ℕ) (layout : List ℕ) (kf : KeyFormat)
    → new_key_format prefix layout ≡ ok kf
    → IsFormatOf kf prefix layout
unfolding new_key_format
new_key_format-IsFormatOf prefix layout kf e =
    let (total, q, r) =
      >>=-eq-ok (layout_length layout 1)
        (λ total. ok (record {
          prefix = prefix;
          layout = layout;
          length = total;
          unbounded = last_is_zero layout;
        }))
        e in
    ground arith

-- The room that is made for the segments.
joined-used :
    (layout : List ℕ) (segments : List Bytes) (t : ℕ)
    → Fits layout segments
    → t + length (joined layout segments)
      ≤ used_length layout segments t + (if last_is_zero layout then last_length segments else 0)
unfolding joined used_length last_is_zero last_length
joined-used layout [] t fit = omega arith
joined-used [] (s ∷ segments) t fit = absurd fit
joined-used (zero ∷ []) (s ∷ []) t fit = ground (arith, length-append s [])
joined-used (zero ∷ []) (s ∷ u ∷ segments) t fit = absurd fit.1
joined-used (zero ∷ k ∷ layout) (s ∷ segments) t fit = absurd (ground arith)
joined-used (suc l ∷ []) (s ∷ []) t fit =
    omega (arith, length-pad l s fit.0, length-append (pad (suc l) s) [])
joined-used (suc l ∷ []) (s ∷ u ∷ segments) t fit = absurd fit.1
joined-used (suc l ∷ k ∷ layout) (s ∷ []) t fit =
    omega (arith, length-pad l s fit.0, length-append (pad (suc l) s) [])
joined-used (suc l ∷ k ∷ layout) (s ∷ u ∷ segments) t fit =
    let rest = joined (k ∷ layout) (u ∷ segments) in
    omega (
      arith,
      length-pad l s fit.0,
      length-append (pad (suc l) s) rest,
      joined-used (k ∷ layout) (u ∷ segments) (t + suc l) fit.1,
    )

used_length-all :
    (layout : List ℕ) (segments : List Bytes) (t total : ℕ)
    → Fits layout segments
    → ltb (length segments) (length layout) ≡ false
    → layout_length layout t ≡ ok total
    → used_length layout segments t ≡ total
unfolding used_length layout_length
used_length-all [] [] t total fit h e = ground arith
used_length-all [] (s ∷ segments) t total fit h e = absurd fit
used_length-all (l ∷ layout) [] t total fit h e = absurd (ground arith)
used_length-all (zero ∷ layout) (s ∷ segments) t total fit h e =
    ground (arith, used_length-all layout segments (t + 0) total fit.1)
used_length-all (suc l ∷ layout) (s ∷ segments) t total fit h e =
    ground (arith, used_length-all layout segments (t + suc l) total fit.1)

-- The segments as a key holds them.
abbrev pub padded : List ℕ → List Bytes → List Bytes
padded layout [] = []
padded [] (s ∷ segments) = []
padded (l ∷ layout) (s ∷ segments) = pad l s ∷ padded layout segments

scan_segments-joined :
    (layout : List ℕ) (segments : List Bytes) (done : Bytes)
    → Fits layout segments
    → length segments ≡ length layout
    → scan_segments layout (done ++ joined layout segments) (length done) ≡ padded layout segments
unfolding scan_segments joined
scan_segments-joined [] [] done fit e = refl
scan_segments-joined [] (s ∷ segments) done fit e = absurd fit
scan_segments-joined (l ∷ layout) [] done fit e = absurd (omega arith)
scan_segments-joined (zero ∷ []) (s ∷ []) done fit e =
    let room : ltb (length (done ++ (s ++ []))) (length done) ≡ false =
      ground (arith, length-append done (s ++ [])) in
    rw (room, drop-append done (s ++ []), append-nil s) refl
scan_segments-joined (zero ∷ []) (s ∷ u ∷ segments) done fit e = absurd fit.1
scan_segments-joined (zero ∷ k ∷ layout) (s ∷ segments) done fit e = absurd (ground arith)
scan_segments-joined (suc l ∷ layout) (s ∷ segments) done fit e =
    let q = pad (suc l) s in
    let j = joined layout segments in
    let w = length-pad l s fit.0 in
    let ih = scan_segments-joined layout segments (done ++ q) fit.1 (omega arith) in
    let room : ltb (length (done ++ (q ++ j))) (length done + suc l) ≡ false =
      ground (arith, length-append done (q ++ j), length-append q j) in
    let back : drop (length done) (done ++ (q ++ j)) ≡ q ++ j = drop-append done (q ++ j) in
    let cut : take (suc l) (q ++ j) ≡ q = ap (λ n. take n (q ++ j)) (sym w) ∙ take-append q j in
    let next : length done + suc l ≡ length (done ++ q) = omega (arith, length-append done q) in
    let rest : scan_segments layout (done ++ (q ++ j)) (length done + suc l)
        ≡ padded layout segments =
      ap (λ key. scan_segments layout key (length done + suc l)) (sym (append_assoc done q j))
      ∙ ap (scan_segments layout ((done ++ q) ++ j)) next
      ∙ ih in
    rw (room, back, cut) (ap (λ r. q ∷ r) rest)

key_length-room :
    (prefix : ℕ) (layout : List ℕ) (kf : KeyFormat) (segments : List Bytes)
    → IsFormatOf kf prefix layout
    → Fits layout segments
    → 1 + length (joined layout segments) ≤ key_length kf segments
unfolding key_length
key_length-room prefix layout kf segments is fit =
    let room = joined-used layout segments 1 fit in
    elim (Bool-cases (ltb (length segments) (length layout))) [
      | inl fewer ↦ rw (is.same_layout, is.same_unbounded, fewer) (ground arith)
      | inr all ↦
          let same = used_length-all layout segments 1 kf.length fit all is.same_length in
          rw (is.same_layout, is.same_unbounded, all) (ground arith)
    ]

-- A format that was made without a panic makes a key of any segments that fit its layout, also of
-- fewer than it has: the prefix, and behind it the segments, filled up on the left with zeros.
pub key_bytes-joined :
    (prefix : ℕ) (layout : List ℕ) (kf : KeyFormat) (segments : List Bytes)
    → new_key_format prefix layout ≡ ok kf
    → Fits layout segments
    → key_bytes kf segments ≡ ok (prefix ∷ joined layout segments)
unfolding key_bytes
key_bytes-joined prefix layout kf segments made fit =
    let is = new_key_format-IsFormatOf prefix layout kf made in
    let room = key_length-room prefix layout kf segments is fit in
    let some_room : (key_length kf segments == 0) ≡ false = ground arith in
    let j = joined layout segments in
    let zeros : Bytes = replicate (key_length kf segments - 1) 0 in
    let put =
      put_segments-Fits layout segments (prefix ∷ []) (key_length kf segments - 1) fit
        (omega arith) in
    let put' =
      ap₂ (λ l p. put_segments l segments (p ∷ zeros) 1) is.same_layout is.same_prefix ∙ put in
    rw (some_room, put')
      (ap ok (take-append (prefix ∷ j) (replicate (key_length kf segments - 1 - length j) 0)))

-- A key of as many segments as the layout of a format has, each no longer than its place there, is
-- made without a panic, and scanned back into them, each filled up on the left to its width.
pub scan_bytes-key_bytes :
    (prefix : ℕ) (layout : List ℕ) (kf : KeyFormat) (segments : List Bytes)
    → new_key_format prefix layout ≡ ok kf
    → Fits layout segments
    → length segments ≡ length layout
    → (key : Bytes) × (key_bytes kf segments ≡ ok key)
      × (scan_bytes kf key ≡ padded layout segments)
unfolding scan_bytes
scan_bytes-key_bytes prefix layout kf segments made fit e =
    let is = new_key_format-IsFormatOf prefix layout kf made in
    (
      prefix ∷ joined layout segments,
      key_bytes-joined prefix layout kf segments made fit,
      rw is.same_layout (scan_segments-joined layout segments (prefix ∷ []) fit e),
    )
