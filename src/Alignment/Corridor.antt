-- ===== src/Alignment/Corridor.antt =====
-- The corridor of `_fill_cost_band` in core/alignment.py: where its rows begin and end.
use Prim.Native.Nat.{◌/◌, ◌%◌}
use native.Mathlib.Nat.{div-add-mod, mod-lt}
use corrigenda.Base.{
  ℕ, zero, suc, max, ◌+◌, ◌*◌, ◌≤◌, ◌<◌, ◌≡◌, refl, ap, ◌⊎◌, inl, inr, arith, Bool-cases, ◌==◌,
}
use corrigenda.Alignment.{round_div, centre, band_lo, band_hi, row_lo, row_hi}

le_cases : (a b : ℕ) → (a ≤ b) ⊎ (b < a)
le_cases a b = grind arith

zero_or_pos : (n : ℕ) → (n ≡ 0) ⊎ (0 < n)
zero_or_pos zero = inl refl
zero_or_pos (suc n) = inr (omega arith)

-- Twice `x` is within `n` of twice a multiple `n * c`.
record IsNearest (x n c : ℕ) : Type 0 where
  above : 2 * (n * c) ≤ 2 * x + n
  below : 2 * x ≤ 2 * (n * c) + n

rounded-IsNearest :
    (x n q r c : ℕ)
    → n * q + r ≡ x
    → r < n
    → ((c ≡ q) × (2 * r ≤ n)) ⊎ ((c ≡ q + 1) × (n ≤ 2 * r))
    → IsNearest x n c
rounded-IsNearest x n q r c e less (inl (is_q, small)) = rw is_q (omega arith)
rounded-IsNearest x n q r c e less (inr (is_q, large)) = rw is_q (omega arith)

round_div-cases :
    (x n : ℕ)
    → ((round_div x n ≡ x / n) × (2 * (x % n) ≤ n))
      ⊎ ((round_div x n ≡ x / n + 1) × (n ≤ 2 * (x % n)))
unfolding round_div
round_div-cases x n = elim (Bool-cases (x / n % 2 == 0)) [
  | inl even ↦ rw even (ground arith)
  | inr odd ↦ rw odd (ground arith)
]

round_div-IsNearest : (x n : ℕ) → 0 < n → IsNearest x n (round_div x n)
round_div-IsNearest x n h =
    rounded-IsNearest x n (x / n) (x % n) (round_div x n) (div-add-mod x n) (mod-lt x h)
      (round_div-cases x n)

le_of_scaled : (n a b : ℕ) → n * a < n * b + n → a ≤ b
le_of_scaled n a b h = elim (le_cases a b) [ inl le ↦ le | inr gt ↦ grind arith ]

round_div_mono : (x y n : ℕ) → 0 < n → x ≤ y → round_div x n ≤ round_div y n
round_div_mono x y n h le = elim (le_cases y x) [
  | inl ge ↦ let e : x ≡ y = omega arith in rw e (omega arith)
  | inr lt ↦
      let p = round_div-IsNearest x n h in
      let q = round_div-IsNearest y n h in le_of_scaled n _ _ (omega (arith, p.above, q.below))
]

round_div_step :
    (x n m band : ℕ) → 0 < n → m ≤ n + band → round_div (x + m) n ≤ round_div x n + 2 + band
round_div_step x n m band h wide =
    let p = round_div-IsNearest (x + m) n h in
    let q = round_div-IsNearest x n h in
    let b : band ≤ n * band = grind arith in le_of_scaled n _ _ (omega (arith, p.above, q.below, b))

round_div_exact : (n m : ℕ) → 0 < n → round_div (n * m) n ≡ m
round_div_exact n m h =
    let p = round_div-IsNearest (n * m) n h in
    let up : round_div (n * m) n ≤ m = le_of_scaled n _ _ (omega (arith, p.above)) in
    let down : m ≤ round_div (n * m) n = le_of_scaled n _ _ (omega (arith, p.below)) in omega arith

centre_mono : (i n m : ℕ) → centre i n m ≤ centre (suc i) n m
unfolding centre
centre_mono i n m = elim (Bool-cases (n == m)) [
  | inl e ↦ rw e (omega arith)
  | inr e ↦ rw e (elim (zero_or_pos n) [
    | inl z ↦ rw z (omega arith)
    | inr pos ↦ ground (arith, round_div_mono (i * m) (suc i * m) n pos)
  ])
]

centre_step : (i n m band : ℕ) → m ≤ n + band → centre (suc i) n m ≤ centre i n m + 2 + band
unfolding centre
centre_step i n m band wide = elim (Bool-cases (n == m)) [
  | inl e ↦ rw e (omega arith)
  | inr e ↦ rw e (elim (zero_or_pos n) [
    | inl z ↦ rw z (omega arith)
    | inr pos ↦
        let e : suc i * m ≡ i * m + m = omega arith in
        ground (arith, ap (λ t. round_div t n) e, round_div_step (i * m) n m band pos)
  ])
]

centre_end : (n m : ℕ) → 0 < n → centre n n m ≡ m
unfolding centre
centre_end n m h = ground (arith, round_div_exact n m h)

centre_first : (n m : ℕ) → centre 0 n m ≡ 0
unfolding centre
centre_first n m = elim (zero_or_pos n) [
  | inl z ↦ ground arith
  | inr pos ↦
      let p = round_div-IsNearest 0 n pos in
      let e : round_div 0 n ≤ 0 = le_of_scaled n _ _ (omega (arith, p.above)) in ground (arith, e)
]

centre_le : (i n m : ℕ) → i ≤ n → centre i n m ≤ m
unfolding centre
centre_le i n m h = elim (zero_or_pos n) [
  | inl z ↦ ground arith
  | inr pos ↦
      ground (arith, round_div_exact n m pos, round_div_mono (i * m) (n * m) n pos (grind arith))
]

-- No narrower than the two lengths differ.
pub record IsWide (n m band : ℕ) : Type 0 where
  pub target_fits : m ≤ n + band
  pub source_fits : n ≤ m + band

pub record IsInside (n m band i j : ℕ) : Type 0 where
  pub from : row_lo n m band i ≤ j
  pub upto : j < row_hi n m band i

module _ (n m band : ℕ) (wide : IsWide n m band) where
  pub row_lo_mono : (i : ℕ) → row_lo n m band i ≤ row_lo n m band (suc i)
  unfolding row_lo band_lo
  row_lo_mono i = omega (arith, centre_mono i n m)

  -- Each row begins before the one above it ends.
  pub rows_overlap : (i : ℕ) → suc i ≤ n → row_lo n m band (suc i) < row_hi n m band i
  unfolding row_lo row_hi band_lo band_hi
  rows_overlap i h = omega (
    arith,
    centre_step i n m band wide.target_fits,
    centre_le (suc i) n m h,
    centre_le i n m (omega arith),
  )

  pub row_hi-le : (i : ℕ) → row_hi n m band i ≤ m + 1
  unfolding row_hi band_hi
  row_hi-le i = omega arith

  pub row_lo_first : row_lo n m band 0 ≡ 0
  unfolding row_lo band_lo
  row_lo_first = omega (arith, centre_first n m)

  pub corner-IsInside : IsInside n m band n m
  unfolding row_lo row_hi band_lo band_hi
  corner-IsInside = elim (zero_or_pos n) [
    | inl z ↦
        let e : centre n n m ≤ n = rw z (omega (arith, centre_first 0 m)) in
        record {
          from = omega (arith, wide.target_fits, wide.source_fits);
          upto = omega (arith, wide.target_fits, wide.source_fits);
        }
    | inr pos ↦ record {
      from = omega (arith, centre_end n m pos);
      upto = omega (arith, centre_end n m pos);
    }
  ]

-- Without a band the corridor is the whole table.
pub whole-IsInside : (n m i j : ℕ) → i ≤ n → j ≤ m → IsInside n m (max n m) i j
unfolding row_lo row_hi band_lo band_hi
whole-IsInside n m i j hi hj =
    let c = centre_le i n m hi in record { from = omega (arith, c); upto = omega (arith, c) }
