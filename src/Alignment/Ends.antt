-- ===== src/Alignment/Ends.antt =====
-- The walk back through the table of core/alignment.py: it ends, and what it reads is an alignment.
use corrigenda.Base.{
  sym, if◌then◌else◌, ℕ, zero, suc, ◌+◌, ◌-◌, ◌*◌, ◌≤◌, ◌<◌, ◌≡◌, ◌⊎◌, refl, ap, ◌∙◌, inl, inr,
  Bool, true, false, ◌&&◌, ltb, Option, none, some, List, [], ◌∷◌, arith,
}
use corrigenda.Alignment.{
  Row, AlignedPair, Move, settle, delete, insert, is_close, add_cost, sub_cost, fill_cost_band,
  choose, walk_back,
}
use corrigenda.Alignment.Corridor.{corner-IsInside, IsInside, IsWide}
use corrigenda.Alignment.Table.{get-fill_cost_band, read-IsInside}
use corrigenda.Alignment.Costs.{
  cost_at, cost_at-above, reach, cost_at-edge, cost_at-first_row, first_cost, inserted,
  cost_at-down, cost_at-across,
}

abbrev pub pair_of : ℕ → ℕ → ℕ → AlignedPair
pair_of i j s = record { source_index = some i; target_index = some j; similarity = s }

abbrev pub deletion : ℕ → AlignedPair
deletion i = record { source_index = some i; target_index = none; similarity = 0 }

abbrev pub insertion : ℕ → AlignedPair
insertion j = record { source_index = none; target_index = some j; similarity = 0 }

-- Pairs that go through the sources from `i` to `n` and the targets from `j` to `m`, each once and
-- in order, where a source and a target stand together only if their similarity is not 0.
abbrev pub Reads : ℕ → ℕ → (ℕ → ℕ → ℕ) → ℕ → ℕ → List AlignedPair → Type 0
Reads n m sim i j [] = (i ≡ n) × (j ≡ m)
Reads n m sim i j (p ∷ ps) =
    ((p ≡ pair_of i j (sim i j)) × (0 < sim i j) × Reads n m sim (suc i) (suc j) ps)
    ⊎ (((p ≡ deletion i) × Reads n m sim (suc i) j ps)
        ⊎ ((p ≡ insertion j) × Reads n m sim i (suc j) ps))

-- What an alignment costs.
unfoldable pub pair_price : ℕ → AlignedPair → ℕ
pair_price one p = elim p.source_index [
  | none ↦ one
  | some i ↦ elim p.target_index [ none ↦ one | some j ↦ 2 * (one - p.similarity) ]
]

unfoldable pub price : ℕ → List AlignedPair → ℕ
unfolding pair_price
price one [] = 0
price one (p ∷ ps) = pair_price one p + price one ps

-- The choice of a turn, from the costs that it reads.
unfoldable turn : ℕ → ℕ → ℕ → Option ℕ → Option ℕ → Option ℕ → Move
turn tolerance one s here up diag =
    if is_close tolerance here (add_cost (2 * (one - s)) diag) && ltb 0 s
    then settle
    else if is_close tolerance here (add_cost one up)
    then delete
    else insert

module _ (tolerance one s : ℕ) (here up diag : Option ℕ) where
  turn-settle :
      turn tolerance one s here up diag ≡ settle
      → (is_close tolerance here (add_cost (2 * (one - s)) diag) ≡ true) × (0 < s)
  unfolding turn
  turn-settle e = ground arith

  turn-delete :
      turn tolerance one s here up diag ≡ delete → is_close tolerance here (add_cost one up) ≡ true
  unfolding turn
  turn-delete e = ground arith

  turn-insert :
      turn tolerance one s here up diag ≡ insert
      → ((is_close tolerance here (add_cost (2 * (one - s)) diag) && ltb 0 s) ≡ false)
        × (is_close tolerance here (add_cost one up) ≡ false)
  unfolding turn
  turn-insert e = ground arith

-- A cost that is close to another's sum: both are finite.
record IsSum (tolerance k : ℕ) (here there : Option ℕ) : Type 0 where
  value : ℕ
  is_value : there ≡ some value
  is_sum : tolerance ≡ 1 → here ≡ some (value + k)

is_close-IsSum :
    (tolerance k : ℕ) (here there : Option ℕ)
    → is_close tolerance here (add_cost k there) ≡ true
    → IsSum tolerance k here there
unfolding is_close add_cost
is_close-IsSum tolerance k none none e = absurd (cc)
is_close-IsSum tolerance k none (some b) e = absurd (cc)
is_close-IsSum tolerance k (some a) none e = absurd (cc)
is_close-IsSum tolerance k (some a) (some b) e = record {
  value = b;
  is_value = refl;
  is_sum = λ exact. ground arith;
}

is_close_gap :
    (tolerance i one : ℕ)
    → 0 < tolerance
    → is_close tolerance (some (suc i * one)) (add_cost one (some (i * one))) ≡ true
unfolding is_close add_cost
is_close_gap tolerance i one positive =
    let e : suc i * one ≡ i * one + one = omega arith in ground arith

data Move-Cases (mv : Move) : Type 0 where
  is_settle : mv ≡ settle → Move-Cases mv
  is_delete : mv ≡ delete → Move-Cases mv
  is_insert : mv ≡ insert → Move-Cases mv

move-cases : (mv : Move) → Move-Cases mv
move-cases settle = is_settle refl
move-cases delete = is_delete refl
move-cases insert = is_insert refl

module _ (n m band one : ℕ) (sim : ℕ → ℕ → ℕ) (tolerance : ℕ) (wide : IsWide n m band)
    (positive : 0 < tolerance) where
  abbrev table : List Row
  table = fill_cost_band n m band one sim

  abbrev costs : ℕ → ℕ → Option ℕ
  costs i j = cost_at n m band one sim wide i j

  abbrev chosen : ℕ → ℕ → Move
  chosen i j = choose n m band one sim tolerance table i j

  chosen-turn :
      (i j : ℕ)
      → suc i ≤ n
      → chosen (suc i) (suc j)
        ≡ turn tolerance one (sim i j) (costs (suc i) (suc j)) (costs i (suc j)) (costs i j)
  unfolding choose turn sub_cost
  chosen-turn i j h =
      rw
        (
          get-fill_cost_band n m band one sim (suc i) (suc j) h,
          get-fill_cost_band n m band one sim i (suc j) (omega arith),
          get-fill_cost_band n m band one sim i j (omega arith),
        )
        refl

  -- A turn that lands on `(i, j)`, `k` cheaper.
  record Lands (here : Option ℕ) (i j k : ℕ) : Type 0 where
    inside : IsInside n m band i j
    sum : IsSum tolerance k here (costs i j)

  land : (here : Option ℕ) (i j k : ℕ) → IsSum tolerance k here (costs i j) → Lands here i j k
  land here i j k s = record {
    inside = read-IsInside n m band one sim i j s.value s.is_value;
    sum = s;
  }

  settle-Lands :
      (i j : ℕ)
      → suc i ≤ n
      → chosen (suc i) (suc j) ≡ settle
      → Lands (costs (suc i) (suc j)) i j (2 * (one - sim i j)) × (0 < sim i j)
  settle-Lands i j h e =
      let t = turn-settle tolerance one (sim i j) _ _ _ (sym (chosen-turn i j h) ∙ e) in
      (land _ i j _ (is_close-IsSum tolerance _ _ _ t.0), t.1)

  delete-Lands :
      (i j : ℕ)
      → suc i ≤ n
      → chosen (suc i) (suc j) ≡ delete
      → Lands (costs (suc i) (suc j)) i (suc j) one
  delete-Lands i j h e =
      let t = turn-delete tolerance one (sim i j) _ _ _ (sym (chosen-turn i j h) ∙ e) in
      land _ i (suc j) _ (is_close-IsSum tolerance _ _ _ t)

  insert-Lands :
      (i j : ℕ)
      → suc i ≤ n
      → IsInside n m band (suc i) (suc j)
      → chosen (suc i) (suc j) ≡ insert
      → Lands (costs (suc i) (suc j)) (suc i) j one
  insert-Lands i j h k e =
      let t = turn-insert tolerance one (sim i j) _ _ _ (sym (chosen-turn i j h) ∙ e) in
      let (l, is_l, is_sum) =
        inserted one (sim i j) tolerance _ _ _ _ positive
          (cost_at-above n m band one sim wide i j k)
          (λ u d. cost_at-across n m band one sim wide i j u d)
          (λ l d. cost_at-down n m band one sim wide i j l d) (reach n m band one sim wide i j h k)
          t.0 t.1 in
      land _ (suc i) j one (record { value = l; is_value = is_l; is_sum = λ exact. is_sum })

  -- The first column and the first row are walked along.
  edge-IsSum :
      (i : ℕ)
      → suc i ≤ n
      → IsInside n m band (suc i) 0
      → IsSum tolerance one (costs (suc i) 0) (costs i 0)
  edge-IsSum i h k =
      let (e, up) = cost_at-edge n m band one sim wide i h k in
      record { value = i * one; is_value = up; is_sum = λ exact. e ∙ ap some (omega arith) }

  edge-delete : (i : ℕ) → suc i ≤ n → IsInside n m band (suc i) 0 → chosen (suc i) 0 ≡ delete
  unfolding choose
  edge-delete i h k =
      let (e, up) = cost_at-edge n m band one sim wide i h k in
      rw
        (
          get-fill_cost_band n m band one sim (suc i) 0 h,
          get-fill_cost_band n m band one sim i 0 (omega arith),
          e,
          up,
          is_close_gap tolerance i one positive,
        )
        refl

  row-IsSum :
      (j : ℕ) → IsInside n m band 0 (suc j) → IsSum tolerance one (costs 0 (suc j)) (costs 0 j)
  row-IsSum j k =
      let (e, left) = cost_at-first_row n m band one sim wide j k in
      record { value = j * one; is_value = left; is_sum = λ exact. e ∙ ap some (omega arith) }

  -- What a walk from `(i, j)` returns, the pairs behind it being `pairs`.
  record Walked (i j : ℕ) (pairs : List AlignedPair) (result : Option (List AlignedPair × Bool))
      : Type 0 where
    found : List AlignedPair × Bool
    is_found : result ≡ some found
    reads : Reads n m sim 0 0 found.0
    priced : tolerance ≡ 1 → (c : ℕ) → costs i j ≡ some c → price one found.0 ≡ c + price one pairs

  walked :
      (i j i' j' : ℕ) (p : AlignedPair) (pairs : List AlignedPair)
      (result : Option (List AlignedPair × Bool))
      → IsSum tolerance (pair_price one p) (costs i j) (costs i' j')
      → Walked i' j' (p ∷ pairs) result
      → Walked i j pairs result
  unfolding price
  walked i j i' j' p pairs result s w = record {
    found = w.found;
    is_found = w.is_found;
    reads = w.reads;
    priced = λ exact c e.
        let here = s.is_sum exact in
        let q = w.priced exact s.value s.is_value in
        let v : c ≡ s.value + pair_price one p = ground arith in omega arith;
  }

  walk :
      (banded : Bool) (fuel i j : ℕ) (pairs : List AlignedPair) (exhausted : Bool)
      → i + j ≤ fuel
      → i ≤ n
      → IsInside n m band i j
      → Reads n m sim i j pairs
      → Walked i j pairs
          (walk_back n m band one sim tolerance table banded fuel i j pairs exhausted)
  unfolding walk_back pair_price
  walk banded fuel zero zero pairs exhausted f h k r = record {
    found = (pairs, exhausted);
    is_found = refl;
    reads = r;
    priced = λ exact c e. omega (arith, first_cost n m band one sim wide c e);
  }
  walk banded zero (suc i) j pairs exhausted f h k r = absurd (omega arith)
  walk banded zero zero (suc j) pairs exhausted f h k r = absurd (omega arith)
  walk banded (suc fuel) zero (suc j) pairs exhausted f h k r =
      let s = row-IsSum j k in
      walked 0 (suc j) 0 j (insertion j) pairs _ s (
        walk banded fuel zero j (insertion j ∷ pairs) _ (omega arith) h (land _ 0 j one s).inside
          (inr (inr (refl, r))))
  walk banded (suc fuel) (suc i) zero pairs exhausted f h k r =
      let s = edge-IsSum i h k in
      rw (edge-delete i h k, walk_back)
        (walked (suc i) 0 i 0 (deletion i) pairs _ s (
          walk banded fuel i zero (deletion i ∷ pairs) _ (omega arith) (omega arith)
            (land _ i 0 one s).inside (inr (inl (refl, r)))))
  walk banded (suc fuel) (suc i) (suc j) pairs exhausted f h k r =
      elim (move-cases (chosen (suc i) (suc j))) [
        | is_settle e ↦
            let (t, evidence) = settle-Lands i j h e in
            rw (e, walk_back)
              (walked (suc i) (suc j) i j (pair_of i j (sim i j)) pairs _ t.sum (
                walk banded fuel i j (pair_of i j (sim i j) ∷ pairs) _ (omega arith) (omega arith)
                  t.inside (inl (refl, evidence, r))))
        | is_delete e ↦
            let t = delete-Lands i j h e in
            rw (e, walk_back)
              (walked (suc i) (suc j) i (suc j) (deletion i) pairs _ t.sum (
                walk banded fuel i (suc j) (deletion i ∷ pairs) _ (omega arith) (omega arith)
                  t.inside (inr (inl (refl, r)))))
        | is_insert e ↦
            let t = insert-Lands i j h k e in
            rw (e, walk_back)
              (walked (suc i) (suc j) (suc i) j (insertion j) pairs _ t.sum (
                walk banded fuel (suc i) j (insertion j ∷ pairs) _ (omega arith) h t.inside
                  (inr (inr (refl, r)))))
      ]

  -- The walk from the corner, with a turn for each token.
  pub walk_ends :
      (banded : Bool)
      → (found : List AlignedPair × Bool) × (walk_back n m band one sim tolerance table banded
            (n + m)
            n
            m
            []
            false
          ≡ some found)
        × Reads n m sim 0 0 found.0
        × (tolerance ≡ 1 → (c : ℕ) → costs n m ≡ some c → price one found.0 ≡ c)
  unfolding price
  walk_ends banded =
      let w =
        walk banded (n + m) n m [] false (omega arith) (omega arith) (corner-IsInside n m band wide)
          (refl, refl) in
      (w.found, w.is_found, w.reads, λ exact c e. w.priced exact c e ∙ omega arith)
