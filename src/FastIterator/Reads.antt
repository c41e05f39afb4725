-- ===== src/FastIterator/Reads.antt =====
-- fast_iterator.go: the fast nodes that an iterator over a range has still to give.
use iavl.Prelude.{
  ◌≡◌, refl, sym, ap, ◌∙◌, List, [], ◌∷◌, ◌++◌, All, length, Bool, true, false, not, ◌&&◌, Option,
  none, some, if◌then◌else◌, drop, ◌==◌, ok, arith, Bool-cases, inl, inr,
}
use mathlib.Core.List.{reverse, reverse-cons}
use iavl.Bytes.{Bytes, compare_bytes}
use iavl.FastNode.{FastNode, write_bytes}
use iavl.KeyFormat.{key_bytes}
use iavl.KeyFormat.RoundTrip.{key_bytes-joined}
use iavl.KeyFormat.Join.{joined}
use iavl.Avl.{Entry}
use iavl.Traversal.{start_or_after, before_end}
use iavl.Traversal.Ranges.{select, in_direction, inside}
use iavl.Directions.{select-select, All-reverse}
use iavl.MemDb.{
  BTree, MemDbIterator, iterator, iterator_key, iterator_value, receive, visited, new_iterator,
}
use iavl.MemDb
use iavl.MemDb.Iterations.{visited-select, select_eq}
use iavl.NodeDatabase.{NodeDatabase, fast_key_format}
use iavl.NodeDatabase.Saved.{Fits, read_written, fast_node_key_lem, fast_key_format-made}
use iavl.FastIterator.{
  FastIterator, increment_first, start_formatted, end_formatted, without_prefix, is_valid,
  current_key, current_value, set_fast_node, read_current, get_fast_iterator, opened, next,
  new_fast_iterator,
}

-- the item of the database for a fast node
abbrev pub item_of : FastNode → Entry
item_of n = (102 ∷ n.key, write_bytes true n [])

abbrev pub items : List FastNode → List Entry
items [] = []
items (n ∷ l) = item_of n ∷ items l

-- the ends of the range of the database
abbrev start_of : Option Bytes → Bytes
start_of none = 102 ∷ []
start_of (some start) = 102 ∷ start

abbrev end_of : Option Bytes → Bytes
end_of none = 103 ∷ []
end_of (some end) = 102 ∷ end

prefix_only : key_bytes fast_key_format [] ≡ ok (102 ∷ [])
unfolding joined
prefix_only = key_bytes-joined 102 (0 ∷ []) fast_key_format [] fast_key_format-made tt

start_formatted_lem : (start : Option Bytes) → start_formatted start ≡ ok (start_of start)
unfolding start_formatted
start_formatted_lem none = prefix_only
start_formatted_lem (some start) = fast_node_key_lem start

end_formatted_lem : (end : Option Bytes) → end_formatted end ≡ ok (end_of end)
unfolding end_formatted increment_first
end_formatted_lem none = rw prefix_only refl
end_formatted_lem (some end) = fast_node_key_lem end

-- the keys of the fast nodes in the database
abbrev pub is_fast : Bytes → Bool
is_fast [] = false
is_fast (c ∷ k) = c == 102

formatted_test :
    (start end : Option Bytes) (key : Bytes)
    → inside (some (start_of start)) (some (end_of end)) false key
      ≡ (is_fast key && inside start end false (drop 1 key))
unfolding start_or_after before_end compare_bytes
formatted_test none none [] = refl
formatted_test none none (c ∷ []) = ground arith
formatted_test none none (c ∷ d ∷ k) = ground arith
formatted_test none (some end) [] = refl
formatted_test none (some end) (c ∷ []) = ground arith
formatted_test none (some end) (c ∷ d ∷ k) = ground arith
formatted_test (some start) none [] = refl
formatted_test (some start) none (c ∷ []) = ground arith
formatted_test (some start) none (c ∷ d ∷ k) = ground arith
formatted_test (some start) (some end) [] = refl
formatted_test (some start) (some end) (c ∷ k) = ground arith

-- the fast nodes in a range, in one of the two directions
abbrev pub within : Option Bytes → Option Bytes → List FastNode → List FastNode
within start end [] = []
within start end (n ∷ l) =
    let rest = within start end l in if inside start end false n.key then n ∷ rest else rest

abbrev pub directed : Bool → List FastNode → List FastNode
directed true l = l
directed false l = reverse l

items-append : (l m : List FastNode) → items (l ++ m) ≡ items l ++ items m
items-append [] m = refl
items-append (n ∷ l) m = ap (λ k. item_of n ∷ k) (items-append l m)

items-reverse : (l : List FastNode) → reverse (items l) ≡ items (reverse l)
items-reverse [] = refl
items-reverse (n ∷ l) =
    reverse-cons (item_of n) (items l)
    ∙ ap (λ k. k ++ item_of n ∷ []) (items-reverse l)
    ∙ sym (items-append (reverse l) (n ∷ []))
    ∙ ap items (sym (reverse-cons n l))

items-directed :
    (ascending : Bool) (l : List FastNode)
    → in_direction ascending (items l) ≡ items (directed ascending l)
items-directed true l = refl
items-directed false l = items-reverse l

items-within :
    (start end : Option Bytes) (l : List FastNode)
    → select (λ e. inside start end false (drop 1 e.0)) (items l) ≡ items (within start end l)
items-within start end [] = refl
items-within start end (n ∷ l) = elim (Bool-cases (inside start end false n.key)) [
  | inl c ↦ rw c (ap (λ k. item_of n ∷ k) (items-within start end l))
  | inr c ↦ rw c (items-within start end l)
]

All-within {κ} :
    (P : FastNode → Type κ) (start end : Option Bytes) (l : List FastNode)
    → All P l
    → All P (within start end l)
All-within P start end [] h = tt
All-within P start end (n ∷ l) (p, h) = elim (Bool-cases (inside start end false n.key)) [
  | inl c ↦ rw c (p, All-within P start end l h)
  | inr c ↦ rw c (All-within P start end l h)
]

All-directed {κ} :
    (P : FastNode → Type κ) (ascending : Bool) (l : List FastNode)
    → All P l
    → All P (directed ascending l)
All-directed P true l h = h
All-directed P false l h = All-reverse P l h

start_full : (start : Option Bytes) → (length (start_of start) == 0) ≡ false
start_full none = refl
start_full (some start) = ground arith

end_full : (end : Option Bytes) → (length (end_of end) == 0) ≡ false
end_full none = refl
end_full (some end) = ground arith

not-not : (b : Bool) → not (not b) ≡ b
not-not true = refl
not-not false = refl

module _ (B : BTree) (ndb : NodeDatabase B) where
  -- The iterator gives these fast nodes, one after the other, and then becomes invalid.
  abbrev pub OnDisk : FastIterator → List FastNode → Type 0
  OnDisk iter [] = (is_valid iter ≡ false) × (current_key iter ≡ ok none)
  OnDisk iter (n ∷ l) =
      (after : FastIterator) × (is_valid iter ≡ true)
      × (current_key iter ≡ ok (some n.key))
      × (current_value iter ≡ ok (some n.value))
      × (next B ndb iter ≡ ok after)
      × OnDisk after l

  read_current-OnDisk :
      (iter : FastIterator) (i : MemDbIterator) (l : List FastNode)
      → All Fits l
      → (after : FastIterator) × (read_current
            (record iter { fast_iterator = some (receive i (items l)); valid = true })
            (receive i (items l))
          ≡ ok after)
        × OnDisk after l
  unfolding read_current is_valid MemDb.valid current_key current_value set_fast_node without_prefix
      iterator_key iterator_value next MemDb.next
  read_current-OnDisk iter i [] fits =
      (record iter { fast_iterator = some (receive i []); valid = false }, refl, (refl, refl))
  read_current-OnDisk iter i (n ∷ l) (fit, fits) =
      let now : FastIterator = record iter {
        fast_iterator = some (receive i (items (n ∷ l)));
        next_fast_node = some n;
        failure = none;
        valid = true;
      } in
      let (after, e, d) = read_current-OnDisk now (receive i (items (n ∷ l))) l fits in
      (now, rw (read_written n fit) refl, (after, refl, refl, refl, e, d))

  -- the fast nodes that the database has
  pub record HasFast (fast : List FastNode) : Type 0 where
    pub fit : All Fits fast
    pub stored : select (λ e. is_fast e.0) (B.ascend ndb.batch.db) ≡ items fast

  in_range :
      (start end : Option Bytes) (ascending : Bool) (fast : List FastNode)
      → HasFast fast
      → visited B ndb.batch.db (some (start_of start)) (some (end_of end)) (not ascending)
        ≡ items (directed ascending (within start end fast))
  in_range start end ascending fast h =
      let m = B.ascend ndb.batch.db in
      let p : Entry → Bool = λ e. inside start end false (drop 1 e.0) in
      visited-select B ndb.batch.db (some (start_of start)) (some (end_of end)) (not ascending)
      ∙ ap
          (λ b.
            in_direction b
              (select (λ e. inside (some (start_of start)) (some (end_of end)) false e.0) m))
          (not-not ascending)
      ∙ ap (in_direction ascending) (
          select_eq _ (λ e. is_fast e.0 && p e) m (λ e. formatted_test start end e.0)
          ∙ sym (select-select p (λ e. is_fast e.0) m)
          ∙ ap (select p) h.stored
          ∙ items-within start end fast)
      ∙ items-directed ascending (within start end fast)

  got_iterator :
      (start end : Option Bytes) (ascending : Bool) (fast : List FastNode)
      → HasFast fast
      → get_fast_iterator B ndb start end ascending
        ≡ ok (
            receive
              (record {
                ch = [];
                item = none;
                start = some (start_of start);
                end = some (end_of end);
              })
              (items (directed ascending (within start end fast))))
  unfolding get_fast_iterator iterator new_iterator
  got_iterator start end ascending fast h =
      rw
        (
          start_formatted_lem start,
          end_formatted_lem end,
          start_full start,
          end_full end,
          in_range start end ascending fast h,
        )
        refl

  -- On a database with these fast nodes, whose versions and sizes fit, a new iterator gives those of
  -- the range in its direction.
  pub new_fast_iterator-OnDisk :
      (start end : Option Bytes) (ascending : Bool) (fast : List FastNode)
      → HasFast fast
      → (iter : FastIterator) × (new_fast_iterator B ndb start end ascending ≡ ok iter)
        × OnDisk iter (directed ascending (within start end fast))
  unfolding new_fast_iterator next opened
  new_fast_iterator-OnDisk start end ascending fast h =
      let l = directed ascending (within start end fast) in
      let (iter, e, d) =
        read_current-OnDisk
          (record {
            start = start;
            end = end;
            valid = true;
            ascending = ascending;
            failure = none;
            next_fast_node = none;
            fast_iterator = none;
          })
          (record { ch = []; item = none; start = some (start_of start); end = some (end_of end) })
          l (All-directed Fits ascending _ (All-within Fits start end fast h.fit)) in
      (iter, rw (got_iterator start end ascending fast h) e, d)
