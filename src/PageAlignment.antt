-- ===== src/PageAlignment.antt =====
-- core/page_alignment.py: which returned line answers which source line, when a page is asked for
-- in one call. Similarities are numbers of units (`Alignment.Scale`); `str.split` is `words`.
pub mod Matched
pub mod Resembles
pub mod Sound
use Prim.Native.Nat.{◌/◌}
use corrigenda.Base.{
  ℕ, zero, suc, ◌+◌, ◌-◌, ◌*◌, Bool, true, false, not, ◌&&◌, ◌||◌, Option, none, some, List, [],
  ◌∷◌, Text, text_eq, words, length, ltb, ◌==◌, if◌then◌else◌,
}
use corrigenda.Alignment.{Scale, AlignedPair, TokenAlignment, align_tokens}

-- MERGE_SLACK_TOKENS and DEFAULT_LINE_BAND
abbrev pub merge_slack_tokens : ℕ
merge_slack_tokens = 2

abbrev pub default_line_band : ℕ
default_line_band = 20

unfoldable pub text_in : Text → List Text → Bool
unfolding text_eq
text_in t [] = false
text_in t (s ∷ ts) = text_eq s t || text_in t ts

-- `set(tokens)`, as a list with no token twice.
unfoldable pub distinct : List Text → List Text
unfolding text_in
distinct [] = []
distinct (t ∷ ts) = let rest = distinct ts in if text_in t ts then rest else t ∷ rest

-- `len(left & right)`
unfoldable pub count_shared : List Text → List Text → ℕ
unfolding text_in
count_shared [] right = 0
count_shared (t ∷ left) right = (if text_in t right then 1 else 0) + count_shared left right

unfoldable pub jaccard : ℕ → List Text → List Text → ℕ
unfolding count_shared
jaccard one [] [] = one
jaccard one [] (t ∷ right) = 0
jaccard one (t ∷ left) [] = 0
jaccard one (t ∷ left) (s ∷ right) =
    let shared = count_shared (t ∷ left) (s ∷ right) in
    one * shared / (length (t ∷ left) + length (s ∷ right) - shared)

unfoldable pub line_similarity : ℕ → Text → Text → ℕ
unfolding distinct jaccard words
line_similarity one left right =
    let n = length (words left) in
    let m = length (words right) in
    if ltb merge_slack_tokens ((n - m) + (m - n))
    then 0
    else jaccard one (distinct (words left)) (distinct (words right))

pub record PageLineAlignment : Type 0 where
  pub matched : List (Option ℕ)
  pub unclaimed : List ℕ
  pub band_exhausted : Bool

-- `matched[i] = j`
unfoldable pub set_match : List (Option ℕ) → ℕ → ℕ → List (Option ℕ)
set_match [] i j = []
set_match (x ∷ xs) zero j = some j ∷ xs
set_match (x ∷ xs) (suc i) j = x ∷ set_match xs i j

unfoldable pub unmatched_list : ℕ → List (Option ℕ)
unmatched_list zero = []
unmatched_list (suc n) = none ∷ unmatched_list n

-- The loop over the pairs: what it does to `matched`, and the indices that `claimed` has after it.
unfoldable pub match_pairs : List AlignedPair → List (Option ℕ) → List (Option ℕ)
unfolding set_match
match_pairs [] matched = matched
match_pairs (p ∷ ps) matched = match_pairs ps (elim p.source_index [
  | none ↦ matched
  | some i ↦ elim p.target_index [ none ↦ matched | some j ↦ set_match matched i j ]
])

unfoldable pub claimed_by : List AlignedPair → List ℕ
claimed_by [] = []
claimed_by (p ∷ ps) =
    let rest = claimed_by ps in
    elim p.source_index [
      | none ↦ rest
      | some i ↦ elim p.target_index [ none ↦ rest | some j ↦ j ∷ rest ]
    ]

unfoldable pub index_in : ℕ → List ℕ → Bool
index_in j [] = false
index_in j (k ∷ ks) = (k == j) || index_in j ks

-- Of `k` indices from `j` on, those that are not claimed.
unfoldable pub unclaimed_from : List ℕ → ℕ → ℕ → List ℕ
unfolding index_in
unclaimed_from claimed zero j = []
unclaimed_from claimed (suc k) j =
    let rest = unclaimed_from claimed k (suc j) in if index_in j claimed then rest else j ∷ rest

unfoldable pub page_alignment : List Text → List Text → TokenAlignment → PageLineAlignment
unfolding match_pairs unmatched_list unclaimed_from claimed_by
page_alignment source_lines returned_lines alignment = record {
  matched = match_pairs alignment.pairs (unmatched_list (length source_lines));
  unclaimed = unclaimed_from (claimed_by alignment.pairs) (length returned_lines) 0;
  band_exhausted = alignment.band_exhausted;
}

unfoldable pub align_page_lines : Scale → List Text → List Text → ℕ → Option PageLineAlignment
unfolding align_tokens page_alignment line_similarity
align_page_lines scale source_lines returned_lines band =
    elim (align_tokens scale (line_similarity scale.one) source_lines returned_lines (some band)) [
      | none ↦ none
      | some alignment ↦ some (page_alignment source_lines returned_lines alignment)
    ]
