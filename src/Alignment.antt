-- ===== src/Alignment.antt =====
-- core/alignment.py: `align_tokens`, which aligns the tokens of a source onto those of its
-- correction by dynamic programming inside a band around the diagonal, and reads the alignment
-- back from the table of costs; `char_similarity`, by the two-row Levenshtein distance.
--
-- Costs, similarities and thresholds are numbers of units, 1.0 being `one` units; infinity, the
-- cost of what lies outside the corridor, is `none`. The index of a source token is its place.
pub mod Corridor
pub mod Table
pub mod Costs
pub mod Ends
pub mod Best
use Prim.Native.Nat.{◌/◌, ◌%◌}
use corrigenda.Base.{
  ℕ, zero, suc, ◌+◌, ◌-◌, ◌*◌, min, max, Bool, true, false, not, ◌&&◌, ◌||◌, Option, none, some,
  List, [], ◌∷◌, Text, text_eq, is_empty, length, get_elem?, ltb, leb, ◌==◌, if◌then◌else◌,
}

-- The units: 1.0, the tolerance 1e-9, _WEAK_MATCH and _MOVE_SIMILARITY.
pub record Scale : Type 0 where
  pub one : ℕ
  pub tolerance : ℕ
  pub weak_match : ℕ
  pub move_similarity : ℕ

pub record AlignedPair : Type 0 where
  pub source_index : Option ℕ
  pub target_index : Option ℕ
  pub similarity : ℕ

-- `score` is a fraction: a number of units over a count of tokens.
pub record TokenAlignment : Type 0 where
  pub pairs : List AlignedPair
  pub score : ℕ × ℕ
  pub move_suspected : Bool
  pub band_exhausted : Bool

-- Python's `round(x / n)` for n > 0: to the nearest, a half to the even side.
unfoldable pub round_div : ℕ → ℕ → ℕ
round_div x n =
    let q = x / n in
    let r = 2 * (x % n) in
    if ltb r n then q else if ltb n r then q + 1 else if q % 2 == 0 then q else q + 1

-- `_banded_range`, its two ends.
unfoldable pub centre : ℕ → ℕ → ℕ → ℕ
centre i n m = if n == m then i else if n == 0 then 0 else round_div (i * m) n

unfoldable pub band_lo : ℕ → ℕ → ℕ → ℕ → ℕ
band_lo i n m band = centre i n m - band

unfoldable pub band_hi : ℕ → ℕ → ℕ → ℕ → ℕ
band_hi i n m band = min m (centre i n m + band + 1)

-- A row of `cost`, with its `lo`.
pub record Row : Type 0 where
  pub offset : ℕ
  pub cells : List (Option ℕ)

unfoldable pub at_cell : List (Option ℕ) → ℕ → Option ℕ
at_cell [] j = none
at_cell (c ∷ cs) zero = c
at_cell (c ∷ cs) (suc j) = at_cell cs j

-- `get`: infinity outside the corridor.
unfoldable pub read : Row → ℕ → Option ℕ
unfolding at_cell
read row j = if leb row.offset j then at_cell row.cells (j - row.offset) else none

unfoldable pub add_cost : ℕ → Option ℕ → Option ℕ
add_cost k none = none
add_cost k (some c) = some (c + k)

-- The update `if other < best: best = other`.
unfoldable pub better : Option ℕ → Option ℕ → Option ℕ
better best none = best
better none (some c) = some c
better (some b) (some c) = if ltb c b then some c else some b

-- `abs(a - b) < 1e-9`; a difference with an infinity is infinite or not a number.
unfoldable pub is_close : ℕ → Option ℕ → Option ℕ → Bool
is_close tolerance none b = false
is_close tolerance (some a) none = false
is_close tolerance (some a) (some b) = ltb ((a - b) + (b - a)) tolerance

pub data Move : Type 0 where
  settle delete insert : Move

-- A row's part of the corridor, padded by one on each side.
module _ (n m band : ℕ) where
  unfoldable pub row_lo : ℕ → ℕ
  unfolding band_lo
  row_lo i = band_lo i n m band - 1

  unfoldable pub row_hi : ℕ → ℕ
  unfolding band_hi
  row_hi i = min (m + 1) (band_hi i n m band + 1)

-- `n` and `m` are the lengths, `band` is `effective`, and `sim i j` is
-- `similarity(source[i], target[j])`.
module _ (n m band one : ℕ) (sim : ℕ → ℕ → ℕ) where
  unfoldable pub gap_cells : ℕ → ℕ → List (Option ℕ)
  gap_cells zero j = []
  gap_cells (suc k) j = some (j * one) ∷ gap_cells k (suc j)

  unfoldable pub first_row : Row
  unfolding gap_cells row_lo row_hi
  first_row = record {
    offset = row_lo n m band 0;
    cells = gap_cells (row_hi n m band 0 - row_lo n m band 0) (row_lo n m band 0);
  }

  -- `2.0 * (1.0 - similarity)`
  unfoldable pub sub_cost : ℕ → ℕ → ℕ
  sub_cost i j = 2 * (one - sim i j)

  -- One cell of row `suc i`: `prev` is row `i`, and `left` the cell before this one.
  unfoldable pub cell : ℕ → Row → ℕ → Option ℕ → Option ℕ
  unfolding add_cost better read sub_cost
  cell i prev zero left = some (suc i * one)
  cell i prev (suc j) left =
      better (better (add_cost one (read prev (suc j))) (add_cost one left))
        (add_cost (sub_cost i j) (read prev j))

  unfoldable pub fill_cells : ℕ → Row → ℕ → ℕ → Option ℕ → List (Option ℕ)
  unfolding cell
  fill_cells i prev zero j left = []
  fill_cells i prev (suc k) j left = let c = cell i prev j left in c ∷ fill_cells i prev k (suc j) c

  unfoldable pub next_row : ℕ → Row → Row
  unfolding fill_cells row_lo row_hi
  next_row i prev = record {
    offset = row_lo n m band (suc i);
    cells =
        fill_cells i prev (row_hi n m band (suc i) - row_lo n m band (suc i))
          (row_lo n m band (suc i)) none;
  }

  -- The rows `i`, `i + 1`, … of `cost`, from row `i`.
  unfoldable pub rows_from : ℕ → ℕ → Row → List Row
  unfolding next_row
  rows_from zero i row = row ∷ []
  rows_from (suc k) i row = row ∷ rows_from k (suc i) (next_row i row)

  -- `_fill_cost_band`
  unfoldable pub fill_cost_band : List Row
  unfolding rows_from first_row
  fill_cost_band = rows_from n 0 first_row

  unfoldable pub get : List Row → ℕ → ℕ → Option ℕ
  unfolding read
  get cost i j = elim (get_elem? cost i) [ none ↦ none | some row ↦ read row j ]

  module _ (tolerance : ℕ) (cost : List Row) where
    -- The tests of one turn of the walk back.
    unfoldable pub choose : ℕ → ℕ → Move
    unfolding is_close add_cost get sub_cost
    choose zero j = insert
    choose (suc i) zero =
        if is_close tolerance (get cost (suc i) 0) (add_cost one (get cost i 0))
        then delete
        else insert
    choose (suc i) (suc j) =
        let here = get cost (suc i) (suc j) in
        if is_close tolerance here (add_cost (sub_cost i j) (get cost i j)) && ltb 0 (sim i j)
        then settle
        else if is_close tolerance here (add_cost one (get cost i (suc j)))
        then delete
        else insert

    -- Whether the walk stands on the edge of a banded corridor.
    unfoldable pub on_edge : Bool → ℕ → ℕ → Bool
    unfolding row_lo row_hi
    on_edge banded i j =
        banded && (leb j (row_lo n m band i) || leb (row_hi n m band i - 1) j) && ltb 0 j && ltb j m

    -- The walk from the corner, a turn for each unit of fuel. `none`: the walk has not ended, which
    -- is also what becomes of one that leaves the table at its left edge, as it goes on forever.
    unfoldable pub walk_back :
        Bool → ℕ → ℕ → ℕ → List AlignedPair → Bool → Option (List AlignedPair × Bool)
    unfolding choose on_edge
    walk_back banded fuel zero zero pairs exhausted = some (pairs, exhausted)
    walk_back banded zero (suc i) j pairs exhausted = none
    walk_back banded zero zero (suc j) pairs exhausted = none
    walk_back banded (suc fuel) zero (suc j) pairs exhausted =
        walk_back banded fuel zero j
          (record { source_index = none; target_index = some j; similarity = 0 } ∷ pairs)
          (exhausted || on_edge banded zero (suc j))
    walk_back banded (suc fuel) (suc i) zero pairs exhausted = elim (choose (suc i) zero) [
      | delete ↦
          walk_back banded fuel i zero
            (record { source_index = some i; target_index = none; similarity = 0 } ∷ pairs)
            (exhausted || on_edge banded (suc i) zero)
      | _ ↦ none
    ]
    walk_back banded (suc fuel) (suc i) (suc j) pairs exhausted =
        let edge = exhausted || on_edge banded (suc i) (suc j) in
        elim (choose (suc i) (suc j)) [
          | settle ↦
              walk_back banded fuel i j
                (record { source_index = some i; target_index = some j; similarity = sim i j }
                  ∷ pairs)
                edge
          | delete ↦
              walk_back banded fuel i (suc j)
                (record { source_index = some i; target_index = none; similarity = 0 } ∷ pairs) edge
          | insert ↦
              walk_back banded fuel (suc i) j
                (record { source_index = none; target_index = some j; similarity = 0 } ∷ pairs) edge
        ]

  -- `_suspect_move`, the inner loop: a twin of source token `i` among `k` targets from `j` on.
  module _ (scale : Scale) where
    unfoldable pub has_twin : ℕ → Option ℕ → ℕ → ℕ → Bool
    has_twin i matched zero j = false
    has_twin i matched (suc k) j =
        (not (elim matched [ none ↦ false | some t ↦ t == j ])
          && leb scale.move_similarity (sim i j))
        || has_twin i matched k (suc j)

    -- `continue` on an insertion and on a pair that is settled.
    unfoldable pub is_settled : AlignedPair → Bool
    is_settled p = elim p.target_index [ none ↦ false | some t ↦ leb scale.weak_match p.similarity ]

    unfoldable pub suspect_move : List AlignedPair → Bool
    unfolding has_twin is_settled band_lo band_hi
    suspect_move [] = false
    suspect_move (p ∷ ps) =
        (elim p.source_index [
          | none ↦ false
          | some i ↦
              not (is_settled p)
              && has_twin i p.target_index
                  (min m (band_hi (suc i) n m band) - band_lo (suc i) n m band)
                  (band_lo (suc i) n m band)
        ])
        || suspect_move ps

unfoldable pub is_match : AlignedPair → Bool
is_match p = elim p.source_index [
  | none ↦ false
  | some i ↦ elim p.target_index [ none ↦ false | some j ↦ true ]
]

unfoldable pub matched_similarity : List AlignedPair → ℕ
unfolding is_match
matched_similarity [] = 0
matched_similarity (p ∷ ps) = (if is_match p then p.similarity else 0) + matched_similarity ps

-- `max(band, abs(n - m)) if band is not None else max(n, m)`
unfoldable pub effective_band : Option ℕ → ℕ → ℕ → ℕ
effective_band none n m = max n m
effective_band (some band) n m = max band ((n - m) + (m - n))

unfoldable pub is_banded : Option ℕ → Bool
is_banded none = false
is_banded (some band) = true

module _ {ℓ} {A : Type ℓ} (scale : Scale) (similarity : A → A → ℕ) where
  -- `similarity(source[i], target[j])`; no other index is ever read.
  unfoldable pub sim_at : List A → List A → ℕ → ℕ → ℕ
  sim_at source target i j = elim (get_elem? source i) [
    | none ↦ 0
    | some s ↦ elim (get_elem? target j) [ none ↦ 0 | some t ↦ similarity s t ]
  ]

  unfoldable pub read_back : List A → List A → Option ℕ → Option (List AlignedPair × Bool)
  unfolding walk_back fill_cost_band effective_band is_banded sim_at
  read_back source target band =
      let n = length source in
      let m = length target in
      let effective = effective_band band n m in
      walk_back n m effective scale.one (sim_at source target) scale.tolerance
        (fill_cost_band n m effective scale.one (sim_at source target)) (is_banded band) (n + m) n m
        [] false

  unfoldable pub token_alignment :
      List A → List A → Option ℕ → List AlignedPair × Bool → TokenAlignment
  unfolding matched_similarity suspect_move effective_band sim_at
  token_alignment source target band (pairs, exhausted) =
      let n = length source in
      let m = length target in
      record {
        pairs = pairs;
        score = (matched_similarity pairs, max (max n m) 1);
        move_suspected =
            suspect_move n m (effective_band band n m) scale.one (sim_at source target) scale pairs;
        band_exhausted = exhausted;
      }

  unfoldable pub align_tokens : List A → List A → Option ℕ → Option TokenAlignment
  unfolding read_back token_alignment
  align_tokens source target band = elim (read_back source target band) [
    | none ↦ none
    | some found ↦ some (token_alignment source target band found)
  ]

-- The two-row Levenshtein distance: a row from the row above, the character `ca` in row `i`.
-- `diag` is the cell above the one before, `left` the cell before.
unfoldable pub next_distances : ℕ → Text → List ℕ → ℕ → ℕ → List ℕ
next_distances ca [] above diag left = []
next_distances ca (cb ∷ b) [] diag left = []
next_distances ca (cb ∷ b) (up ∷ above) diag left =
    let d = min (min (up + 1) (left + 1)) (diag + (if ca == cb then 0 else 1)) in
    d ∷ next_distances ca b above up d

-- The last cell of a row whose first cell is `first`.
unfoldable pub last_cell : ℕ → List ℕ → ℕ
last_cell first [] = first
last_cell first (d ∷ row) = last_cell d row

unfoldable pub distance_rows : Text → Text → ℕ → ℕ → List ℕ → ℕ
unfolding next_distances last_cell
distance_rows [] b i first row = last_cell first row
distance_rows (ca ∷ a) b i first row =
    distance_rows a b (suc i) (suc i) (next_distances ca b row first (suc i))

-- `range(1, len(b) + 1)`, what stands behind the 0 of the first row.
unfoldable pub count_from : ℕ → Text → List ℕ
count_from i [] = []
count_from i (c ∷ b) = suc i ∷ count_from (suc i) b

unfoldable pub levenshtein : Text → Text → ℕ
unfolding distance_rows count_from
levenshtein a b = distance_rows a b 0 0 (count_from 0 b)

-- `1.0 - distance / max(len(a), len(b))`, in units that the lengths divide.
unfoldable pub char_similarity : ℕ → Text → Text → ℕ
unfolding levenshtein text_eq is_empty
char_similarity one a b =
    if text_eq a b
    then one
    else if is_empty a || is_empty b
    then 0
    else (one - one * levenshtein a b / max (length a) (length b))
