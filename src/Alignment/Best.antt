-- ===== src/Alignment/Best.antt =====
-- `align_tokens` of core/alignment.py as a whole: an answer for every input, and the cheapest one.
use mathlib.Core.Path.{ap₂}
use mathlib.Core.Option.{some-injective}
use corrigenda.Base.{
  ℕ, suc, ◌+◌, max, ◌≤◌, ◌<◌, ◌≡◌, ◌⊎◌, sym, ap, ◌∙◌, inl, inr, Option, none, some, Bool, false,
  List, [], ◌∷◌, length, arith,
}
use corrigenda.Alignment.{
  Scale, AlignedPair, TokenAlignment, effective_band, is_banded, sim_at, read_back, token_alignment,
  align_tokens,
}
use corrigenda.Alignment.Corridor.{IsWide, corner-IsInside, whole-IsInside}
use corrigenda.Alignment.Costs.{
  cost_at, cost_at-IsFinite, cost_at-down, cost_at-across, cost_at-diagonal, first_cost,
}
use corrigenda.Alignment.Ends.{Reads, walk_ends, price, pair_price, pair_of, deletion, insertion}

effective_band-IsWide : (band : Option ℕ) (n m : ℕ) → IsWide n m (effective_band band n m)
unfolding effective_band
effective_band-IsWide none n m = record { target_fits = omega arith; source_fits = omega arith }
effective_band-IsWide (some b) n m = record { target_fits = omega arith; source_fits = omega arith }

-- An alignment of any kind, also one that puts tokens with nothing in common together.
abbrev pub Aligns : ℕ → ℕ → (ℕ → ℕ → ℕ) → ℕ → ℕ → List AlignedPair → Type 0
Aligns n m sim i j [] = (i ≡ n) × (j ≡ m)
Aligns n m sim i j (p ∷ ps) =
    ((p ≡ pair_of i j (sim i j)) × Aligns n m sim (suc i) (suc j) ps)
    ⊎ (((p ≡ deletion i) × Aligns n m sim (suc i) j ps)
        ⊎ ((p ≡ insertion j) × Aligns n m sim i (suc j) ps))

module _ (n m one : ℕ) (sim : ℕ → ℕ → ℕ) (wide : IsWide n m (max n m)) where
  Aligns-le : (i j : ℕ) (ps : List AlignedPair) → Aligns n m sim i j ps → (i ≤ n) × (j ≤ m)
  Aligns-le i j [] a = omega arith
  Aligns-le i j (p ∷ ps) (inl (e, a)) =
      let r = Aligns-le (suc i) (suc j) ps a in (omega arith, omega arith)
  Aligns-le i j (p ∷ ps) (inr (inl (e, a))) =
      let r = Aligns-le (suc i) j ps a in (omega arith, omega arith)
  Aligns-le i j (p ∷ ps) (inr (inr (e, a))) =
      let r = Aligns-le i (suc j) ps a in (omega arith, omega arith)

  abbrev costs : ℕ → ℕ → Option ℕ
  costs i j = cost_at n m (max n m) one sim wide i j

  at_most :
      (i j : ℕ) (ps : List AlignedPair) (c total : ℕ)
      → Aligns n m sim i j ps
      → costs i j ≡ some c
      → costs n m ≡ some total
      → total ≤ c + price one ps
  unfolding price pair_price
  at_most i j [] c total (ei, ej) e t =
      let same : costs i j ≡ costs n m = ap₂ costs ei ej in
      omega (arith, some-injective c total (sym e ∙ same ∙ t))
  at_most i j (p ∷ ps) c total (inl (ep, a)) e t =
      let (hi, hj) = Aligns-le (suc i) (suc j) ps a in
      let (c', e') =
        cost_at-IsFinite n m (max n m) one sim wide (suc i) (suc j) hi
          (whole-IsInside n m _ _ hi hj) in
      let step = cost_at-diagonal n m (max n m) one sim wide i j c' c e' e in
      rw ep (omega (arith, at_most (suc i) (suc j) ps c' total a e' t))
  at_most i j (p ∷ ps) c total (inr (inl (ep, a))) e t =
      let (hi, hj) = Aligns-le (suc i) j ps a in
      let (c', e') =
        cost_at-IsFinite n m (max n m) one sim wide (suc i) j hi (whole-IsInside n m _ _ hi hj) in
      let step = cost_at-down n m (max n m) one sim wide i j c' c e' e in
      rw ep (omega (arith, at_most (suc i) j ps c' total a e' t))
  at_most i j (p ∷ ps) c total (inr (inr (ep, a))) e t =
      let (hi, hj) = Aligns-le i (suc j) ps a in
      let (c', e') =
        cost_at-IsFinite n m (max n m) one sim wide i (suc j) hi (whole-IsInside n m _ _ hi hj) in
      let step = cost_at-across n m (max n m) one sim wide i j c' c e' e in
      rw ep (omega (arith, at_most i (suc j) ps c' total a e' t))

module _ {ℓ} {A : Type ℓ} (scale : Scale) (similarity : A → A → ℕ) (source target : List A) where
  abbrev sim : ℕ → ℕ → ℕ
  sim = sim_at scale similarity source target

  align_tokens-some :
      (band : Option ℕ) (found : List AlignedPair × Bool)
      → read_back scale similarity source target band ≡ some found
      → align_tokens scale similarity source target band
        ≡ some (token_alignment scale similarity source target band found)
  unfolding align_tokens
  align_tokens-some band found e =
      ap
        (λ t. elim t [
          | none ↦ none
          | some f ↦ some (token_alignment scale similarity source target band f)
        ])
        e

  read_back-found :
      (band : Option ℕ)
      → 0 < scale.tolerance
      → (found : List AlignedPair × Bool) × (read_back scale similarity source target band
          ≡ some found)
        × Reads (length source) (length target) sim 0 0 found.0
  unfolding read_back
  read_back-found band positive =
      let wide = effective_band-IsWide band (length source) (length target) in
      let (found, is_found, reads, priced) =
        walk_ends (length source) (length target) _ scale.one sim scale.tolerance wide positive
          (is_banded band) in
      (found, is_found, reads)

  -- The alignment is found whatever the tokens, the similarity and the band are, where the
  -- tolerance is not 0: its pairs go through the source tokens and through the target tokens, each
  -- token once and in order, so that no two pairs cross; and a source and a target token stand
  -- together only with their own similarity, which is not 0.
  pub align_tokens-Reads :
      (band : Option ℕ)
      → 0 < scale.tolerance
      → (alignment : TokenAlignment) × (align_tokens scale similarity source target band
          ≡ some alignment)
        × Reads (length source) (length target) sim 0 0 alignment.pairs
  unfolding token_alignment
  align_tokens-Reads band positive =
      let (found, is_found, reads) = read_back-found band positive in
      (
        token_alignment scale similarity source target band found,
        align_tokens-some band found is_found,
        reads,
      )

  -- Without a band, and with a tolerance that takes only equal costs for equal, no alignment of the
  -- two token lists costs less than the one found, where an insertion and a deletion cost 1.0 and a
  -- pair twice what its similarity lacks to 1.0: not even one with pairs of similarity 0.
  pub align_tokens-cheapest :
      scale.tolerance ≡ 1
      → (alignment : TokenAlignment) × (align_tokens scale similarity source target none
          ≡ some alignment)
        × ((other : List AlignedPair)
            → Aligns (length source) (length target) sim 0 0 other
            → price scale.one alignment.pairs ≤ price scale.one other)
  unfolding token_alignment read_back effective_band
  align_tokens-cheapest exact =
      let n = length source in
      let m = length target in
      let wide = effective_band-IsWide none n m in
      let (found, is_found, reads, priced) =
        walk_ends n m (max n m) scale.one sim scale.tolerance wide (omega arith) false in
      let (c, e) =
        cost_at-IsFinite n m (max n m) scale.one sim wide n m (omega arith)
          (corner-IsInside n m (max n m) wide) in
      let (z, ez) =
        cost_at-IsFinite n m (max n m) scale.one sim wide 0 0 (omega arith)
          (whole-IsInside n m 0 0 (omega arith) (omega arith)) in
      (
        token_alignment scale similarity source target none found,
        align_tokens-some none found is_found,
        λ other a. omega (
          arith,
          priced exact c e,
          first_cost n m (max n m) scale.one sim wide z ez,
          at_most n m scale.one sim wide 0 0 other z c a ez e,
        ),
      )
