-- ===== src/Guards.antt =====
-- core/guards.py: whether a line's correction may stand beside its source and its neighbours, and
-- the two checks on adjacent lines. `difflib.SequenceMatcher` is written out for two texts with no
-- junk; its `ratio` is a float. `ProposalFeatures`, which only the report reads, is left out.
pub mod Crossing
pub mod Seams
use corrigenda.Base.{
  ℕ, zero, suc, ◌+◌, ◌*◌, max, Bool, true, false, not, ◌&&◌, ◌||◌, Option, none, some, List, [],
  ◌∷◌, ◌++◌, Text, codes, words, is_empty, text_eq, length, take, drop, ltb, pos, ◌==◌,
  if◌then◌else◌,
}
use corrigenda.Floats.{Floats, Unicode}
use corrigenda.Marks.{last_word}
use corrigenda.Hyphenation.{first_word, both_words}
use corrigenda.Manifest.{LineRef}
use corrigenda.Policies.{GuardConfig}
use corrigenda.Units.Groups.{at_ref, set_ref}

-- How far two texts agree from their heads on.
unfoldable pub common_head : Text → Text → ℕ
common_head [] b = 0
common_head (c ∷ a) [] = 0
common_head (c ∷ a) (d ∷ b) = let rest = suc (common_head a b) in if c == d then rest else 0

-- A common block: where it starts in the two texts, and how long it is.
pub record Block : Type 0 where
  pub at_a : ℕ
  pub at_b : ℕ
  pub size : ℕ

unfoldable pub longer : Block → Block → Block
longer best other = if ltb best.size other.size then other else best

-- The blocks that start at `i` in one text, against the best so far.
unfoldable pub best_at : Text → Text → ℕ → ℕ → Block → Block
unfolding common_head longer
best_at a [] i j best = best
best_at a (d ∷ b) i j best =
    best_at a b i (suc j)
      (longer best (record { at_a = i; at_b = j; size = common_head a (d ∷ b) }))

unfoldable pub best_from : Text → Text → ℕ → Block → Block
unfolding best_at
best_from [] b i best = best
best_from (c ∷ a) b i best = best_from a b (suc i) (best_at (c ∷ a) b i 0 best)

-- `find_longest_match`: of the longest common blocks the first, by its place in `a`, then in `b`.
unfoldable pub longest_match : Text → Text → Block
unfolding best_from
longest_match a b = best_from a b 0 (record { at_a = 0; at_b = 0; size = 0 })

-- The size of all matching blocks: the longest one, and those on either side of it. Each turn
-- leaves shorter texts, so that the length of `a`, and one, is enough fuel.
unfoldable pub matching_size : ℕ → Text → Text → ℕ
unfolding longest_match
matching_size zero a b = 0
matching_size (suc fuel) a b =
    let m = longest_match a b in
    let before = matching_size fuel (take m.at_a a) (take m.at_b b) in
    let behind = matching_size fuel (drop (m.at_a + m.size) a) (drop (m.at_b + m.size) b) in
    if m.size == 0 then 0 else m.size + before + behind

module _ (fl : Floats) where
  abbrev num : ℕ → fl.Float
  num n = fl.of_ℤ (pos n)

  -- `_similarity`
  unfoldable pub similarity : Text → Text → fl.Float
  unfolding matching_size is_empty
  similarity a b =
      if is_empty a && is_empty b
      then num 1
      else if is_empty a || is_empty b
      then num 0
      else fl.ratio (2 * matching_size (suc (length a)) a b) (length a + length b)

  -- `x > y`
  unfoldable pub gt : fl.Float → fl.Float → Bool
  gt x y = fl.lt y x

-- `accepted` and `text`; `reason` is `none` where the correction stands.
pub record AcceptanceResult : Type 0 where
  pub accepted : Bool
  pub text : Text
  pub reason : Option Text

abbrev pub accepted_text : Text → AcceptanceResult
accepted_text text = record { accepted = true; text = text; reason = none }

abbrev pub rejected_text : Text → Text → AcceptanceResult
rejected_text text reason = record { accepted = false; text = text; reason = some reason }

module _ (fl : Floats) (config : GuardConfig fl) where
  -- Guard 2, for one neighbour: the correction is closer to it than to its own source.
  unfoldable pub closer_to : Option Text → Text → Text → Bool
  unfolding similarity gt
  closer_to none source corrected = false
  closer_to (some neighbour) source corrected =
      gt fl (similarity fl neighbour corrected)
        (fl.add (similarity fl source corrected) config.neighbour_margin)

  unfoldable pub is_longer : Text → Text → Bool
  unfolding gt
  is_longer source corrected =
      gt fl (num fl (length corrected))
        (fl.mul (num fl (max (length source) 1)) config.absorption_length_ratio)

  -- Guard 3, for one neighbour that is not empty: the correction is the two texts joined.
  unfoldable pub absorbs : Option Text → (Text → Text) → Text → Text → Bool
  unfolding similarity gt is_longer is_empty
  absorbs none join source corrected = false
  absorbs (some neighbour) join source corrected =
      not (is_empty neighbour)
      && is_longer source corrected
      && gt fl (similarity fl corrected (join neighbour)) config.absorption_concat_similarity

  unfoldable pub check_line : Text → Text → Option Text → Option Text → AcceptanceResult
  unfolding closer_to absorbs similarity
  check_line source corrected prev next =
      if text_eq corrected source
      then accepted_text corrected
      else if fl.lt (similarity fl source corrected) config.min_source_similarity
      then rejected_text source (codes "too_different_from_source")
      else if closer_to prev source corrected
      then rejected_text source (codes "closer_to_previous_line")
      else if closer_to next source corrected
      then rejected_text source (codes "closer_to_next_line")
      else if absorbs next (λ t. source ++ (b' ' ∷ t)) source corrected
      then rejected_text source (codes "absorbs_next_line")
      else if absorbs prev (λ t. t ++ (b' ' ∷ source)) source corrected
      then rejected_text source (codes "absorbs_previous_line")
      else accepted_text corrected

-- An entry of the adjacent lines: the reference, the source and the text that was accepted.
pub record SegmentLine : Type 0 where
  pub ref : LineRef
  pub source : Text
  pub corrected : Text

-- `revert`, in the order of insertion.
abbrev pub Reverts : Type 0
Reverts = List (LineRef × Text)

unfoldable pub is_flagged : LineRef → Reverts → Bool
unfolding at_ref
is_flagged r reverts = elim (at_ref r reverts) [ none ↦ false | some reason ↦ true ]

unfoldable pub flag_both : LineRef → LineRef → Text → Reverts → Reverts
unfolding set_ref
flag_both a b reason reverts = set_ref b reason (set_ref a reason reverts)

abbrev pub adjacent_duplicate_detected : Text
adjacent_duplicate_detected = codes "adjacent_duplicate_detected"

abbrev pub boundary_migration_forward : Text
boundary_migration_forward = codes "boundary_migration_forward"

abbrev pub boundary_migration_backward : Text
boundary_migration_backward = codes "boundary_migration_backward"

module _ (fl : Floats) (config : GuardConfig fl) where
  unfoldable pub is_duplicate : SegmentLine → SegmentLine → Bool
  unfolding similarity
  is_duplicate a b =
      not (fl.lt (similarity fl a.corrected b.corrected) config.duplicate_threshold)
      && not (fl.le config.duplicate_source_min_diff (similarity fl a.source b.source))

  -- The loop, from the line `a` on.
  unfoldable pub duplicates_from : SegmentLine → List SegmentLine → Reverts → Reverts
  unfolding is_flagged is_duplicate flag_both
  duplicates_from a [] revert = revert
  duplicates_from a (b ∷ rest) revert = duplicates_from b rest (
      if is_flagged b.ref revert
      then revert
      else if is_duplicate a b
      then flag_both a.ref b.ref adjacent_duplicate_detected revert
      else revert)

  unfoldable pub check_adjacent_duplicates : List SegmentLine → Reverts
  unfolding duplicates_from
  check_adjacent_duplicates [] = []
  check_adjacent_duplicates (a ∷ rest) = duplicates_from a rest []

  -- `_word_migrated_across_seam`; `joined` is the neighbour and the own word, in reading order.
  unfoldable pub word_migrated : Text → Text → Text → Text → Bool
  unfolding similarity gt is_empty
  word_migrated cor_word own_src neighbour joined =
      not (is_empty cor_word || is_empty own_src || is_empty neighbour)
      && not (text_eq cor_word own_src)
      && gt fl (similarity fl cor_word joined) config.absorption_concat_similarity
      && gt fl (similarity fl cor_word joined)
          (fl.add (similarity fl cor_word own_src) config.neighbour_margin)

  module _ (uni : Unicode) where
    -- `_whole_word_crossed_the_seam`, on the four case-folded words at the seam.
    unfoldable pub word_crossed : (a_src a_cor b_src b_cor : Text) → Bool
    word_crossed a_src a_cor b_src b_cor =
        (text_eq a_cor b_src && not (text_eq a_cor a_src) && not (text_eq b_cor b_src))
        || (text_eq b_cor a_src && not (text_eq b_cor b_src) && not (text_eq a_cor a_src))

    -- What the seam of two lines shows, given the last word of the first line's source and the first
    -- word of the second's, and those of their corrections, which may have no words.
    unfoldable pub seam_reason : Text → Text → Option Text → Option Text → Option Text
    unfolding word_migrated word_crossed both_words
    seam_reason a_src b_src a_cor b_cor =
        let forward : Bool = elim a_cor [
          | none ↦ false
          | some w ↦ word_migrated w a_src b_src (a_src ++ b_src)
        ] in
        let backward : Bool = elim b_cor [
          | none ↦ false
          | some w ↦ word_migrated w b_src a_src (a_src ++ b_src)
        ] in
        let moved =
          both_words
            (λ a b.
              word_crossed (uni.ncfold a_src) (uni.ncfold a) (uni.ncfold b_src) (uni.ncfold b))
            a_cor b_cor in
        if forward || moved
        then some boundary_migration_forward
        else if backward
        then some boundary_migration_backward
        else none

    unfoldable pub migration : SegmentLine → SegmentLine → Option Text
    unfolding seam_reason last_word first_word words
    migration a b = elim (last_word (words a.source)) [
      | none ↦ none
      | some a_src ↦ elim (first_word (words b.source)) [
        | none ↦ none
        | some b_src ↦
            seam_reason a_src b_src (last_word (words a.corrected)) (first_word (words b.corrected))
      ]
    ]

    unfoldable pub migrations_from : SegmentLine → List SegmentLine → Reverts → Reverts
    unfolding migration flag_both
    migrations_from a [] revert = revert
    migrations_from a (b ∷ rest) revert =
        migrations_from b rest (elim (migration a b) [
          | none ↦ revert
          | some reason ↦ flag_both a.ref b.ref reason revert
        ])

    unfoldable pub check_boundary_migration : List SegmentLine → Reverts
    unfolding migrations_from
    check_boundary_migration [] = []
    check_boundary_migration (a ∷ rest) = migrations_from a rest []
