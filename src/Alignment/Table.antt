-- ===== src/Alignment/Table.antt =====
-- The table of costs that `_fill_cost_band` of core/alignment.py fills, cell by cell.
use native.Mathlib.Nat.{add-zero}
use corrigenda.Base.{
  le→leb, ℕ, zero, suc, ◌+◌, ◌-◌, ◌*◌, ◌≤◌, ◌<◌, ◌≡◌, refl, ap, ◌∙◌, Option, none, some, get_elem?,
  Bool-cases, arith, leb, leb→le, inl, inr,
}
use corrigenda.Alignment.{
  Row, at_cell, read, row_lo, row_hi, gap_cells, first_row, cell, fill_cells, next_row, rows_from,
  fill_cost_band, get,
}
use corrigenda.Alignment.Corridor.{IsInside}

module _ (n m band one : ℕ) (sim : ℕ → ℕ → ℕ) where
  -- Row `i` of the table.
  unfoldable pub row_of : ℕ → Row
  row_of zero = first_row n m band one sim
  row_of (suc i) = next_row n m band one sim i (row_of i)

  rows_from-row_of :
      (k i d : ℕ)
      → d ≤ k
      → get_elem? (rows_from n m band one sim k i (row_of i)) d ≡ some (row_of (i + d))
  unfolding rows_from row_of
  rows_from-row_of zero i zero h = rw add-zero
  rows_from-row_of zero i (suc d) h = absurd (omega arith)
  rows_from-row_of (suc k) i zero h = rw add-zero
  rows_from-row_of (suc k) i (suc d) h =
      rows_from-row_of k (suc i) d (omega arith) ∙ ap (λ t. some (row_of t)) (omega arith)

  pub get-fill_cost_band :
      (i j : ℕ)
      → i ≤ n
      → get n m band one sim (fill_cost_band n m band one sim) i j ≡ read (row_of i) j
  unfolding get fill_cost_band row_of
  get-fill_cost_band i j h =
      ap (λ t. elim t [ none ↦ none | some row ↦ read row j ]) (rows_from-row_of n 0 i h)
      ∙ ap (λ t. read (row_of t) j) (omega arith)

  row_of-offset : (i : ℕ) → (row_of i).offset ≡ row_lo n m band i
  unfolding row_of first_row next_row
  row_of-offset zero = refl
  row_of-offset (suc i) = refl

  at_cell-gap_cells :
      (k j d : ℕ) → d < k → at_cell (gap_cells n m band one sim k j) d ≡ some ((j + d) * one)
  unfolding at_cell gap_cells
  at_cell-gap_cells zero j d h = absurd (omega arith)
  at_cell-gap_cells (suc k) j zero h = rw add-zero
  at_cell-gap_cells (suc k) j (suc d) h =
      at_cell-gap_cells k (suc j) d (omega arith) ∙ ap (λ t. some (t * one)) (omega arith)

  at_cell-fill_cells_first :
      (i : ℕ) (prev : Row) (k j : ℕ) (left : Option ℕ)
      → 0 < k
      → at_cell (fill_cells n m band one sim i prev k j left) 0
        ≡ cell n m band one sim i prev j left
  unfolding at_cell fill_cells
  at_cell-fill_cells_first i prev zero j left h = absurd (omega arith)
  at_cell-fill_cells_first i prev (suc k) j left h = refl

  at_cell-fill_cells :
      (i : ℕ) (prev : Row) (k j d : ℕ) (left : Option ℕ)
      → suc d < k
      → at_cell (fill_cells n m band one sim i prev k j left) (suc d)
        ≡ cell n m band one sim i prev
            (suc (j + d))
            (at_cell (fill_cells n m band one sim i prev k j left) d)
  unfolding at_cell fill_cells
  at_cell-fill_cells i prev zero j d left h = absurd (omega arith)
  at_cell-fill_cells i prev (suc zero) j d left h = absurd (omega arith)
  at_cell-fill_cells i prev (suc (suc k)) j zero left h = rw add-zero
  at_cell-fill_cells i prev (suc (suc k)) j (suc d) left h =
      let c = cell n m band one sim i prev j left in
      at_cell-fill_cells i prev (suc k) (suc j) d c (omega arith)
      ∙ ap
          (λ t.
            cell n m band one sim i prev (suc t)
              (at_cell (fill_cells n m band one sim i prev (suc k) (suc j) c) d))
          {y = j + suc d} (omega arith)

  read-at_cell :
      (row : Row) (lo j : ℕ) → row.offset ≡ lo → lo ≤ j → read row j ≡ at_cell row.cells (j - lo)
  unfolding read
  read-at_cell row lo j e h = rw (e, le→leb lo j h)

  pub read_before : (i j : ℕ) → j < row_lo n m band i → read (row_of i) j ≡ none
  unfolding read
  read_before i j h = ground (arith, row_of-offset i)

  -- The first row: a gap for each target token.
  pub read_first : (j : ℕ) → IsInside n m band 0 j → read (row_of 0) j ≡ some (j * one)
  unfolding row_of first_row
  read_first j h =
      read-at_cell (row_of 0) _ j refl h.from
      ∙ at_cell-gap_cells _ _ (j - row_lo n m band 0) (omega arith)
      ∙ ap (λ t. some (t * one)) (omega arith)

  read_row_start :
      (i : ℕ)
      → row_lo n m band (suc i) < row_hi n m band (suc i)
      → read (row_of (suc i)) (row_lo n m band (suc i))
        ≡ cell n m band one sim i (row_of i) (row_lo n m band (suc i)) none
  unfolding row_of next_row
  read_row_start i h =
      read-at_cell (row_of (suc i)) _ _ refl (omega arith)
      ∙ ap (at_cell (row_of (suc i)).cells) {y = 0} (omega arith)
      ∙ at_cell-fill_cells_first i (row_of i) _ (row_lo n m band (suc i)) none (omega arith)

  read_row_next :
      (i j : ℕ)
      → row_lo n m band (suc i) ≤ j
      → suc j < row_hi n m band (suc i)
      → read (row_of (suc i)) (suc j)
        ≡ cell n m band one sim i (row_of i) (suc j) (read (row_of (suc i)) j)
  unfolding row_of next_row
  read_row_next i j from upto =
      let lo = row_lo n m band (suc i) in
      let e : lo + (j - lo) ≡ j = omega arith in
      rw (read-at_cell (row_of (suc i)) lo (suc j) refl (omega arith)) (
        rw (read-at_cell (row_of (suc i)) lo j refl from) (
          ap (at_cell (row_of (suc i)).cells) {y = suc (j - lo)} (omega arith)
          ∙ at_cell-fill_cells i _ _ lo (j - lo) _ (omega arith)
          ∙ ap
              (λ t.
                cell n m band one sim i (row_of i) (suc t)
                  (at_cell (row_of (suc i)).cells (j - lo)))
              e))

  pub read_edge :
      (i : ℕ) → IsInside n m band (suc i) 0 → read (row_of (suc i)) 0 ≡ some (suc i * one)
  unfolding cell
  read_edge i h =
      let e : row_lo n m band (suc i) ≡ 0 = omega arith in
      let start = read_row_start i (omega arith) in rw e at start

  -- Any other cell, from the three before it.
  pub read-cell :
      (i j : ℕ)
      → IsInside n m band (suc i) (suc j)
      → read (row_of (suc i)) (suc j)
        ≡ cell n m band one sim i (row_of i) (suc j) (read (row_of (suc i)) j)
  read-cell i j h = elim (Bool-cases (leb (row_lo n m band (suc i)) j)) [
    | inl in_row ↦ read_row_next i j (leb→le _ _ in_row) (omega arith)
    | inr first ↦
        let e : row_lo n m band (suc i) ≡ suc j = ground arith in
        let start = read_row_start i (omega arith) in
        rw (read_before (suc i) j (omega arith)) (rw e at start)
  ]

  at_cell-gap_cells_past : (k j d : ℕ) → k ≤ d → at_cell (gap_cells n m band one sim k j) d ≡ none
  unfolding at_cell gap_cells
  at_cell-gap_cells_past zero j d h = refl
  at_cell-gap_cells_past (suc k) j zero h = absurd (omega arith)
  at_cell-gap_cells_past (suc k) j (suc d) h = at_cell-gap_cells_past k (suc j) d (omega arith)

  at_cell-fill_cells_past :
      (i : ℕ) (prev : Row) (k j d : ℕ) (left : Option ℕ)
      → k ≤ d
      → at_cell (fill_cells n m band one sim i prev k j left) d ≡ none
  unfolding at_cell fill_cells
  at_cell-fill_cells_past i prev zero j d left h = refl
  at_cell-fill_cells_past i prev (suc k) j zero left h = absurd (omega arith)
  at_cell-fill_cells_past i prev (suc k) j (suc d) left h =
      at_cell-fill_cells_past i prev k (suc j) d _ (omega arith)

  read_after : (i j : ℕ) → row_lo n m band i ≤ j → row_hi n m band i ≤ j → read (row_of i) j ≡ none
  unfolding row_of first_row next_row
  read_after zero j from past =
      read-at_cell (row_of 0) _ j refl from
      ∙ at_cell-gap_cells_past (row_hi n m band 0 - row_lo n m band 0) _ (j - row_lo n m band 0)
          (omega arith)
  read_after (suc i) j from past =
      read-at_cell (row_of (suc i)) _ j refl from
      ∙ at_cell-fill_cells_past i (row_of i) (row_hi n m band (suc i) - row_lo n m band (suc i)) _
          (j - row_lo n m band (suc i)) none (omega arith)

  -- A finite cost stands inside the corridor.
  pub read-IsInside : (i j c : ℕ) → read (row_of i) j ≡ some c → IsInside n m band i j
  read-IsInside i j c e = elim (Bool-cases (leb (row_lo n m band i) j)) [
    | inl from ↦ elim (Bool-cases (leb (row_hi n m band i) j)) [
      | inl past ↦ let gone = read_after i j (leb→le _ _ from) (leb→le _ _ past) in cc
      | inr upto ↦ record { from = leb→le _ _ from; upto = ground arith }
    ]
    | inr before ↦ let gone = read_before i j (ground arith) in cc
  ]
