-- ===== src/Editing/Occurrences.antt =====
-- The ranges that `normalize_anchor` of core/editing.py accepts.
use corrigenda.Base.{
  is_prefix, ℕ, zero, suc, ◌+◌, ◌-◌, ◌≤◌, ◌<◌, true, false, ◌≡◌, refl, inl, inr, Option, none, some,
  List, [], ◌∷◌, Text, ℤ, pos, pos_part, length, get_elem?, drop, length-drop, slice, is_empty,
  arith, Bool-cases,
}
use corrigenda.Editing.Ops.{EditAnchor, range, match, Range, accepted}
use corrigenda.Editing.Anchor.{all_starts, range_of, pick_start, normalize_anchor}
use corrigenda.Editing.Positions.{
  all_starts-eq-positions, IsIn, positions, positions_complete, positions_sound, take-is_prefix,
}

-- What a range says that an anchor names: for offsets, those; for a match, a place where the text
-- stands, the only one where no occurrence is given, else the one of that rank.
abbrev pub Names : EditAnchor → Text → Range → Type 0
Names (range start end) s r = (start ≡ pos r.start) × (end ≡ pos r.end)
Names (match m none) s r =
    (slice r.start r.end s ≡ m) × ((j : ℕ) → is_prefix m (drop j s) ≡ true → j ≡ r.start)
Names (match m (some k)) s r =
    (slice r.start r.end s ≡ m) × (get_elem? (positions m 0 s) (pos_part k) ≡ some r.start)

get_elem?-IsIn : (xs : List ℕ) (n : ℕ) {x : ℕ} → get_elem? xs n ≡ some x → IsIn x xs
get_elem?-IsIn [] n h = cc
get_elem?-IsIn (y ∷ xs) zero h = inl (ground arith)
get_elem?-IsIn (y ∷ xs) (suc n) h = inr (get_elem?-IsIn xs n h)

nonempty_length : (m : Text) → is_empty m ≡ false → 0 < length m
unfolding is_empty
nonempty_length m h = ground arith

-- At a position, the slice of the length of the text is the text, within the bounds.
slice_at_position :
    (m s : Text) (i : ℕ)
    → is_empty m ≡ false
    → IsIn i (positions m 0 s)
    → (slice i (i + length m) s ≡ m) × (i + length m ≤ length s)
unfolding slice
slice_at_position m s i n h =
    let (j, e, p) = positions_sound m 0 s i h in
    let at : i ≡ j = omega arith in
    let size : i + length m - i ≡ length m = omega arith in
    let there = take-is_prefix m (drop i s) (rw at p) in
    (rw size there.0, omega (arith, nonempty_length m n, there.1, length-drop i s))

-- What an accepted anchor promises of its range.
pub record IsRangeOf (a : EditAnchor) (s : Text) (r : Range) : Type 0 where
  pub ordered : r.start ≤ r.end
  pub within : r.end ≤ length s
  pub named : Names a s r

match-IsRangeOf :
    (m s : Text) (k : Option ℤ) (i : ℕ)
    → is_empty m ≡ false
    → IsIn i (positions m 0 s)
    → Names (match m k) s (record { start = i; end = i + length m })
    → IsRangeOf (match m k) s (record { start = i; end = i + length m })
match-IsRangeOf m s k i n h named = record {
  ordered = omega arith;
  within = (slice_at_position m s i n h).1;
  named = named;
}

range_of-inv :
    (m : Text) (o : Option ℕ) (r : Range)
    → range_of m o ≡ accepted r
    → (i : ℕ) × (o ≡ some i) × (r ≡ record { start = i; end = i + length m })
unfolding range_of
range_of-inv m none r h = cc
range_of-inv m (some i) r h = (i, refl, ground arith)

pick_start-IsRangeOf :
    (m s : Text) (occurrence : Option ℤ) (starts : List ℕ) (r : Range)
    → is_empty m ≡ false
    → starts ≡ positions m 0 s
    → pick_start m occurrence starts ≡ accepted r
    → IsRangeOf (match m occurrence) s r
unfolding pick_start
pick_start-IsRangeOf m s occurrence [] r n e h = cc
pick_start-IsRangeOf m s none (i ∷ []) r n e h =
    let here : r ≡ record { start = i; end = i + length m } = ground arith in
    let at : IsIn i (positions m 0 s) = rw (← e) (inl refl) in
    rw here (
      match-IsRangeOf m s none i n at
        ((slice_at_position m s i n at).0, λ j p. only j (positions_complete m 0 s j n p)))
  where
    only : (j : ℕ) → IsIn (0 + j) (positions m 0 s) → j ≡ i
    only j q = elim (rw (← e) at q) [ inl p ↦ omega arith | inr p ↦ absurd p ]
pick_start-IsRangeOf m s none (i ∷ j ∷ rest) r n e h = cc
pick_start-IsRangeOf m s (some k) (i ∷ rest) r n e h =
    let o = get_elem? (i ∷ rest) (pos_part k) in
    let chosen : range_of m o ≡ accepted r = ground arith in
    let (x, p, here) = range_of-inv m o r chosen in
    let at : IsIn x (positions m 0 s) = rw (← e) (get_elem?-IsIn (i ∷ rest) (pos_part k) p) in
    rw here (match-IsRangeOf m s (some k) x n at ((slice_at_position m s x n at).0, rw (← e) p))

-- An accepted anchor names a range that lies in the text, its ends in order: the offsets that it
-- gives, or a slice that is the text to be matched. With no occurrence given, that text stands
-- nowhere else in the line; with one given, the slice is the occurrence of that rank, counting
-- overlapping ones from 0.
pub normalize_anchor-IsRangeOf :
    (a : EditAnchor) (s : Text) (r : Range) → normalize_anchor a s ≡ accepted r → IsRangeOf a s r
unfolding normalize_anchor
normalize_anchor-IsRangeOf (range start end) s r h = ground arith
normalize_anchor-IsRangeOf (match m occurrence) s r h = elim (Bool-cases (is_empty m)) [
  | inl e ↦ absurd (ground arith)
  | inr n ↦
      pick_start-IsRangeOf m s occurrence (all_starts m s) r n (all_starts-eq-positions m s n)
        (ground arith)
]
