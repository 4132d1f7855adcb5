-- ===== src/Editing/Anchor.antt =====
-- `normalize_anchor` of core/editing.py.
use corrigenda.Base.{
  ℕ, zero, suc, ◌+◌, ℤ, pos, pos_part, leb_ℤ, ltb_ℤ, ◌&&◌, ◌||◌, Option, none, some, List, [], ◌∷◌,
  Text, length, get_elem?, find_from, is_empty, if◌then◌else◌,
}
use corrigenda.Editing.Ops.{EditAnchor, range, match, Range, Reason, Checked, accepted, refused}

-- The `while` loop that collects the starts, on fuel: `i` is what `find` returned last.
unfoldable pub starts_loop : ℕ → Text → Text → Option ℕ → List ℕ
unfolding find_from
starts_loop zero m s i = []
starts_loop (suc fuel) m s none = []
starts_loop (suc fuel) m s (some i) = i ∷ starts_loop fuel m s (find_from m s (i + 1))

-- A text has no more starts than characters.
unfoldable pub all_starts : Text → Text → List ℕ
unfolding starts_loop find_from
all_starts m s = starts_loop (suc (length s)) m s (find_from m s 0)

unfoldable pub range_of : Text → Option ℕ → Checked Range
range_of m none = refused Reason.anchor_range
range_of m (some s) = accepted (record { start = s; end = s + length m })

-- Which start an occurrence names: none given, there must be one only.
unfoldable pub pick_start : Text → Option ℤ → List ℕ → Checked Range
unfolding range_of
pick_start m occurrence [] = refused Reason.anchor_not_found
pick_start m none (s ∷ []) = range_of m (some s)
pick_start m none (s ∷ t ∷ rest) = refused Reason.anchor_ambiguous
pick_start m (some k) (s ∷ rest) =
    if ltb_ℤ k (pos 0) || leb_ℤ (pos (length (s ∷ rest))) k
    then refused Reason.anchor_range
    else range_of m (get_elem? (s ∷ rest) (pos_part k))

unfoldable pub normalize_anchor : EditAnchor → Text → Checked Range
unfolding all_starts pick_start is_empty
normalize_anchor (range start end) canonical =
    if leb_ℤ (pos 0) start && leb_ℤ start end && leb_ℤ end (pos (length canonical))
    then accepted (record { start = pos_part start; end = pos_part end })
    else refused Reason.anchor_range
normalize_anchor (match m occurrence) canonical =
    if is_empty m
    then refused Reason.anchor_empty
    else pick_start m occurrence (all_starts m canonical)
