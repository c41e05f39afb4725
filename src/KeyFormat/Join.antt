-- ===== src/KeyFormat/Join.antt =====
-- keyformat/key_format.go: the loop of `KeyBytes` over the segments.
use iavl.Prelude.{
  ℕ, zero, suc, ◌+◌, ◌-◌, ◌≤◌, ◌≡◌, ◌∙◌, refl, sym, ap, List, [], ◌∷◌, ◌++◌, false, ltb, length,
  take, drop, replicate, ok, arith, length-append, append_assoc, append-nil,
}
use iavl.Bytes.{Bytes}
use native.Mathlib.Numerals.{unary_clauses}
use iavl.KeyFormat.{copy_segment, put_segments}

take-append_more : (xs ys : Bytes) (n : ℕ) → take (length xs + n) (xs ++ ys) ≡ xs ++ take n ys
take-append_more [] ys n = let same : 0 + n ≡ n = omega arith in ap (λ m. take m ys) same
take-append_more (x ∷ xs) ys n =
    let step : suc (length xs) + n ≡ suc (length xs + n) = omega arith in
    ap (λ m. take m (x ∷ (xs ++ ys))) step ∙ ap (λ l. x ∷ l) (take-append_more xs ys n)

pub drop-append_more : (xs ys : Bytes) (n : ℕ) → drop (length xs + n) (xs ++ ys) ≡ drop n ys
drop-append_more [] ys n = let same : 0 + n ≡ n = omega arith in ap (λ m. drop m ys) same
drop-append_more (x ∷ xs) ys n =
    let step : suc (length xs) + n ≡ suc (length xs + n) = omega arith in
    ap (λ m. drop m (x ∷ (xs ++ ys))) step ∙ drop-append_more xs ys n

take-replicate : (n k b : ℕ) → n ≤ k → take n (replicate k b) ≡ replicate n b
take-replicate zero k b h = refl
take-replicate (suc n) zero b h = absurd (omega arith)
take-replicate (suc n) (suc k) b h = ap (λ l. b ∷ l) (take-replicate n k b (omega arith))

drop-replicate : (n k b : ℕ) → drop n (replicate k b) ≡ replicate (k - n) b
drop-replicate zero k b = simp unary_clauses refl
drop-replicate (suc n) zero b =
    let none : 0 ≡ 0 - suc n = omega arith in ap (λ k. replicate k b) none
drop-replicate (suc n) (suc k) b = simp unary_clauses (drop-replicate n k b)

length-replicate : (k b : ℕ) → length (replicate k b) ≡ k
length-replicate zero b = refl
length-replicate (suc k) b = ap suc (length-replicate k b)

-- A segment in its place: filled up on the left with zeros, unless its width is unbounded.
abbrev pub pad : ℕ → Bytes → Bytes
pad zero s = s
pad (suc l) s = replicate (suc l - length s) 0 ++ s

unfoldable pub joined : List ℕ → List Bytes → Bytes
joined layout [] = []
joined [] (s ∷ segments) = []
joined (l ∷ layout) (s ∷ segments) = pad l s ++ joined layout segments

-- The segments are no more than the layout has, and none is longer than its width; only the last
-- width is unbounded.
abbrev pub Fits : List ℕ → List Bytes → Type 0
Fits layout [] = Unit
Fits [] (s ∷ segments) = ⊥
Fits (zero ∷ layout) (s ∷ segments) = (layout ≡ []) × Fits layout segments
Fits (suc l ∷ layout) (s ∷ segments) = (length s ≤ suc l) × Fits layout segments

copy_segment-zeros :
    (done s : Bytes) (w k : ℕ)
    → length s ≤ w
    → w ≤ k
    → copy_segment (done ++ replicate k 0) (length done + w) s
      ≡ ok ((done ++ (replicate (w - length s) 0 ++ s)) ++ replicate (k - w) 0)
unfolding copy_segment
copy_segment-zeros done s w k h h' =
    let room : ltb (length (done ++ replicate k 0)) (length done + w) ≡ false =
      ground (arith, length-append done (replicate k 0), length-replicate k 0) in
    let back : drop (length done + w) (done ++ replicate k 0) ≡ replicate (k - w) 0 =
      drop-append_more done (replicate k 0) w ∙ drop-replicate w k 0 in
    let start : length done + w - length s ≡ length done + (w - length s) = omega arith in
    let front : take (length done + (w - length s)) (done ++ replicate k 0)
        ≡ done ++ replicate (w - length s) 0 =
      take-append_more done (replicate k 0) (w - length s)
      ∙ ap (λ l. done ++ l) (take-replicate (w - length s) k 0 (omega arith)) in
    rw (room, back, start, front)
      (ap ok (
        append_assoc done (replicate (w - length s) 0) (s ++ replicate (k - w) 0)
        ∙ ap (λ l. done ++ l)
            (sym (append_assoc (replicate (w - length s) 0) s (replicate (k - w) 0)))
        ∙ sym (append_assoc done (replicate (w - length s) 0 ++ s) (replicate (k - w) 0))))

pub length-pad : (l : ℕ) (s : Bytes) → length s ≤ suc l → length (pad (suc l) s) ≡ suc l
length-pad l s h =
    omega (
      arith,
      length-append (replicate (suc l - length s) 0) s,
      length-replicate (suc l - length s) 0,
    )

-- What is left to do behind a segment that was put.
put_segments-rest :
    (layout : List ℕ) (segments : List Bytes) (done p j : Bytes) (k : ℕ)
    → put_segments layout segments ((done ++ p) ++ replicate (k - length p) 0) (length (done ++ p))
      ≡ ok (((done ++ p) ++ j) ++ replicate (k - length p - length j) 0, length ((done ++ p) ++ j))
    → put_segments layout segments
        ((done ++ p) ++ replicate (k - length p) 0)
        (length done + length p)
      ≡ ok ((done ++ (p ++ j)) ++ replicate (k - length (p ++ j)) 0, length (done ++ (p ++ j)))
put_segments-rest layout segments done p j k ih =
    let left : k - length p - length j ≡ k - length (p ++ j) = omega (arith, length-append p j) in
    ap (put_segments layout segments ((done ++ p) ++ replicate (k - length p) 0))
      (sym (length-append done p))
    ∙ ih
    ∙ rw (append_assoc done p j, left) refl

pub put_segments-Fits :
    (layout : List ℕ) (segments : List Bytes) (done : Bytes) (k : ℕ)
    → Fits layout segments
    → length (joined layout segments) ≤ k
    → put_segments layout segments (done ++ replicate k 0) (length done)
      ≡ ok (
        (done ++ joined layout segments) ++ replicate (k - length (joined layout segments)) 0,
        length (done ++ joined layout segments),
      )
unfolding put_segments joined
put_segments-Fits layout [] done k fit room = rw (append-nil done) (simp unary_clauses refl)
put_segments-Fits [] (s ∷ segments) done k fit room = absurd fit
put_segments-Fits (zero ∷ layout) (s ∷ segments) done k fit room =
    let j = joined layout segments in
    let n = length-append s j in
    let none : length s - length s ≡ 0 = omega arith in
    let put : copy_segment (done ++ replicate k 0) (length done + length s) s
        ≡ ok ((done ++ s) ++ replicate (k - length s) 0) =
      copy_segment-zeros done s (length s) k (omega arith) (omega arith) ∙ rw none refl in
    rw put (
      put_segments-rest layout segments done s j k
        (put_segments-Fits layout segments (done ++ s) (k - length s) fit.1 (omega arith)))
put_segments-Fits (suc l ∷ layout) (s ∷ segments) done k fit room =
    let q = pad (suc l) s in
    let j = joined layout segments in
    let n = length-append q j in
    let e = length-pad l s fit.0 in
    let short : ltb (suc l) (length s) ≡ false = ground arith in
    let put : copy_segment (done ++ replicate k 0) (length done + suc l) s
        ≡ ok ((done ++ q) ++ replicate (k - length q) 0) =
      copy_segment-zeros done s (suc l) k fit.0 (omega arith) ∙ rw e refl in
    let rest =
      put_segments-rest layout segments done q j k
        (put_segments-Fits layout segments (done ++ q) (k - length q) fit.1 (omega arith)) in
    rw (short, put)
      (ap
          (λ n.
            put_segments layout segments ((done ++ q) ++ replicate (k - length q) 0)
              (length done + n))
          (sym e)
        ∙ rest)
