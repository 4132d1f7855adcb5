-- ===== src/Alignment/Costs.antt =====
-- The costs in the table of core/alignment.py: which of them are finite, and how those of
-- neighbours compare.
use native.Mathlib.Nat.{add-mul}
use corrigenda.Base.{
  sym, ℕ, zero, suc, ◌+◌, ◌-◌, ◌*◌, ◌≤◌, ◌<◌, ◌≡◌, ◌≢◌, refl, ap, ◌∙◌, inl, inr, false, ◌&&◌, ltb,
  leb, leb→le, Option, none, some, Bool-cases, arith,
}
use corrigenda.Alignment.{read, add_cost, better, cell, is_close, row_lo}
use corrigenda.Alignment.Corridor.{IsInside, IsWide, row_lo_mono, row_lo_first, rows_overlap}
use corrigenda.Alignment.Table.{row_of, read_first, read_edge, read-cell, read-IsInside}

abbrev pub IsFinite : Option ℕ → Type 0
IsFinite o = (c : ℕ) × (o ≡ some c)

better-IsFinite_left : (a b : Option ℕ) → IsFinite a → IsFinite (better a b)
unfolding better
better-IsFinite_left none b (c, e) = absurd (cc)
better-IsFinite_left (some a) none h = (a, refl)
better-IsFinite_left (some a) (some b) h = elim (Bool-cases (ltb b a)) [
  | inl lt ↦ (b, rw lt)
  | inr ge ↦ (a, rw ge)
]

better-IsFinite_right : (a b : Option ℕ) → IsFinite b → IsFinite (better a b)
unfolding better
better-IsFinite_right a none (c, e) = absurd (cc)
better-IsFinite_right none (some b) h = (b, refl)
better-IsFinite_right (some a) (some b) h = better-IsFinite_left (some a) (some b) (a, refl)

add_cost-IsFinite : (k : ℕ) (a : Option ℕ) → IsFinite a → IsFinite (add_cost k a)
unfolding add_cost
add_cost-IsFinite k none (c, e) = absurd (cc)
add_cost-IsFinite k (some a) h = (a + k, refl)

module _ (one sub : ℕ) (up left diag : Option ℕ) (here c : ℕ) where
  cheapest-up :
      better (better (add_cost one up) (add_cost one left)) (add_cost sub diag) ≡ some here
      → up ≡ some c
      → here ≤ c + one
  unfolding better add_cost
  cheapest-up e eu = ground arith

  cheapest-left :
      better (better (add_cost one up) (add_cost one left)) (add_cost sub diag) ≡ some here
      → left ≡ some c
      → here ≤ c + one
  unfolding better add_cost
  cheapest-left e el = ground arith

  cheapest-diag :
      better (better (add_cost one up) (add_cost one left)) (add_cost sub diag) ≡ some here
      → diag ≡ some c
      → here ≤ c + sub
  unfolding better add_cost
  cheapest-diag e ed = ground arith

-- Where neither of the other tests passes, the cell was reached from its left.
pub inserted :
    (one sim tolerance : ℕ) (here up left diag : Option ℕ)
    → 0 < tolerance
    → here ≡ better (better (add_cost one up) (add_cost one left)) (add_cost (2 * (one - sim)) diag)
    → ((u d : ℕ) → up ≡ some u → diag ≡ some d → u ≤ d + one)
    → ((l d : ℕ) → left ≡ some l → diag ≡ some d → l ≤ d + one)
    → (up ≡ none → left ≢ none)
    → (is_close tolerance here (add_cost (2 * (one - sim)) diag) && ltb 0 sim) ≡ false
    → is_close tolerance here (add_cost one up) ≡ false
    → (l : ℕ) × (left ≡ some l) × (here ≡ some (l + one))
unfolding better add_cost is_close
inserted one sim tolerance here none none diag pos e across down reach t1 t2 =
    absurd (reach refl refl)
inserted one sim tolerance here none (some l) none pos e across down reach t1 t2 = (l, refl, e)
inserted one sim tolerance here none (some l) (some d) pos e across down reach t1 t2 =
    let near = down l d refl refl in (l, refl, ground arith)
inserted one sim tolerance here (some u) none none pos e across down reach t1 t2 =
    absurd (ground arith)
inserted one sim tolerance here (some u) none (some d) pos e across down reach t1 t2 =
    let near = across u d refl refl in absurd (ground arith)
inserted one sim tolerance here (some u) (some l) none pos e across down reach t1 t2 =
    (l, refl, ground arith)
inserted one sim tolerance here (some u) (some l) (some d) pos e across down reach t1 t2 =
    let near = across u d refl refl in let close = down l d refl refl in (l, refl, ground arith)

module _ (n m band one : ℕ) (sim : ℕ → ℕ → ℕ) (wide : IsWide n m band) where
  abbrev pub cost_at : ℕ → ℕ → Option ℕ
  cost_at i j = read (row_of n m band one sim i) j

  above-IsInside :
      (i j : ℕ)
      → suc i ≤ n
      → IsInside n m band (suc i) (suc j)
      → j < row_lo n m band (suc i)
      → IsInside n m band i (suc j)
  above-IsInside i j h k first =
      let lo = row_lo_mono n m band wide i in
      let over = rows_overlap n m band wide i h in record { from = omega arith; upto = omega arith }

  pub cost_at-above :
      (i j : ℕ)
      → IsInside n m band (suc i) (suc j)
      → cost_at (suc i) (suc j)
        ≡ better
            (better (add_cost one (cost_at i (suc j))) (add_cost one (cost_at (suc i) j)))
            (add_cost (2 * (one - sim i j)) (cost_at i j))
  unfolding cell
  cost_at-above i j h = read-cell n m band one sim i j h

  -- Every cell of the corridor is reached.
  pub cost_at-IsFinite : (i j : ℕ) → i ≤ n → IsInside n m band i j → IsFinite (cost_at i j)
  cost_at-IsFinite zero j h k = (j * one, read_first n m band one sim j k)
  cost_at-IsFinite (suc i) zero h k = (suc i * one, read_edge n m band one sim i k)
  cost_at-IsFinite (suc i) (suc j) h k = elim (Bool-cases (leb (row_lo n m band (suc i)) j)) [
    | inl in_row ↦
        let p =
          cost_at-IsFinite (suc i) j h (record { from = leb→le _ _ in_row; upto = omega arith }) in
        rw (cost_at-above i j k)
          (better-IsFinite_left _ _ (better-IsFinite_right _ _ (add_cost-IsFinite one _ p)))
    | inr first ↦
        let p = cost_at-IsFinite i (suc j) (omega arith) (above-IsInside i j h k (ground arith)) in
        rw (cost_at-above i j k)
          (better-IsFinite_left _ _ (better-IsFinite_left _ _ (add_cost-IsFinite one _ p)))
  ]

  first_column : (i c : ℕ) → cost_at i 0 ≡ some c → c ≡ i * one
  first_column zero c e =
      let v = read_first n m band one sim 0 (read-IsInside n m band one sim 0 0 c e) in ground arith
  first_column (suc i) c e =
      let v = read_edge n m band one sim i (read-IsInside n m band one sim (suc i) 0 c e) in
      ground arith

  first_row_cost : (j c : ℕ) → cost_at 0 j ≡ some c → c ≡ j * one
  first_row_cost j c e =
      let v = read_first n m band one sim j (read-IsInside n m band one sim 0 j c e) in ground arith

  pub first_cost : (c : ℕ) → cost_at 0 0 ≡ some c → c ≡ 0
  first_cost c e = omega (arith, first_column 0 c e)

  pub cost_at-down : (i j u d : ℕ) → cost_at (suc i) j ≡ some u → cost_at i j ≡ some d → u ≤ d + one
  cost_at-down i zero u d eu ed =
      omega (arith, first_column (suc i) u eu, first_column i d ed, add-mul 1 i one)
  cost_at-down i (suc j) u d eu ed =
      let v = cost_at-above i j (read-IsInside n m band one sim (suc i) (suc j) u eu) in
      cheapest-up one (2 * (one - sim i j)) _ _ _ u d (sym v ∙ eu) ed

  pub cost_at-across :
      (i j u d : ℕ) → cost_at i (suc j) ≡ some u → cost_at i j ≡ some d → u ≤ d + one
  cost_at-across zero j u d eu ed =
      omega (arith, first_row_cost (suc j) u eu, first_row_cost j d ed)
  cost_at-across (suc i) j u d eu ed =
      let v = cost_at-above i j (read-IsInside n m band one sim (suc i) (suc j) u eu) in
      cheapest-left one (2 * (one - sim i j)) _ _ _ u d (sym v ∙ eu) ed

  pub cost_at-diagonal :
      (i j u d : ℕ)
      → cost_at (suc i) (suc j) ≡ some u
      → cost_at i j ≡ some d
      → u ≤ d + 2 * (one - sim i j)
  cost_at-diagonal i j u d eu ed =
      let v = cost_at-above i j (read-IsInside n m band one sim (suc i) (suc j) u eu) in
      cheapest-diag one (2 * (one - sim i j)) _ _ _ u d (sym v ∙ eu) ed

  -- A cell that is not reached from above is reached from its left.
  pub reach :
      (i j : ℕ)
      → suc i ≤ n
      → IsInside n m band (suc i) (suc j)
      → cost_at i (suc j) ≡ none
      → cost_at (suc i) j ≢ none
  reach i j h k gone lost = elim (Bool-cases (leb (row_lo n m band (suc i)) j)) [
    | inl in_row ↦
        let p =
          cost_at-IsFinite (suc i) j h (record { from = leb→le _ _ in_row; upto = omega arith }) in
        cc (p.1)
    | inr first ↦
        let p = cost_at-IsFinite i (suc j) (omega arith) (above-IsInside i j h k (ground arith)) in
        cc (p.1)
  ]

  -- The cell above one in the first column, and the cell before one in the first row.
  pub cost_at-edge :
      (i : ℕ)
      → suc i ≤ n
      → IsInside n m band (suc i) 0
      → (cost_at (suc i) 0 ≡ some (suc i * one)) × (cost_at i 0 ≡ some (i * one))
  cost_at-edge i h k =
      let lo = row_lo_mono n m band wide i in
      let over = rows_overlap n m band wide i h in
      let (c, e) =
        cost_at-IsFinite i 0 (omega arith) (record { from = omega arith; upto = omega arith }) in
      (read_edge n m band one sim i k, e ∙ ap some (first_column i c e))

  pub cost_at-first_row :
      (j : ℕ)
      → IsInside n m band 0 (suc j)
      → (cost_at 0 (suc j) ≡ some (suc j * one)) × (cost_at 0 j ≡ some (j * one))
  cost_at-first_row j k =
      let lo = row_lo_first n m band wide in
      (
        read_first n m band one sim (suc j) k,
        read_first n m band one sim j (record { from = omega arith; upto = omega arith }),
      )
