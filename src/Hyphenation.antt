-- ===== src/Hyphenation.antt =====
-- core/hyphenation.py: the migration checks, the reconciliation of one hyphen pair and the class of
-- its outcome.
pub mod Verdict
use corrigenda.Base.{
  ℕ, ◌+◌, min, max, Bool, true, false, ◌&&◌, ◌||◌, not, Option, none, some, List, [], ◌∷◌, ◌++◌,
  Text, words, rstrip, rstrip_by, ends_in, is_empty, text_eq, length, take, ltb, leb, pos, ◌==◌,
  if◌then◌else◌,
}
use corrigenda.Floats.{Floats, Unicode}
use corrigenda.Manifest.{LineManifest, LineStatus}
use corrigenda.Marks.{is_break_mark, ends_with_break_mark, strip_trailing_break_marks, last_word}
use corrigenda.Policies.{GuardConfig}
use corrigenda.Decide.{Traces, accept, fall_back}

unfoldable pub first_word : List Text → Option Text
first_word [] = none
first_word (w ∷ ws) = some w

unfoldable pub is_none {ℓ} : {A : Type ℓ} → Option A → Bool
is_none none = true
is_none (some a) = false

unfoldable pub given_or {ℓ} : {A : Type ℓ} → Option A → A → A
given_or none d = d
given_or (some a) d = a

-- `if effective_subs`: some word is declared.
unfoldable pub declares : Option Text → Bool
unfolding is_empty
declares none = false
declares (some s) = not (is_empty s)

-- Whether a text test holds of two words that may be missing; a missing one fails it.
unfoldable pub both_words : (Text → Text → Bool) → Option Text → Option Text → Bool
both_words p none v = false
both_words p (some w) none = false
both_words p (some w) (some v) = p w v

-- The two texts that reconciliation settles on, and the logical word that it vouches for.
pub record Reconciled : Type 0 where
  pub text1 : Text
  pub text2 : Text
  pub subs : Option Text

pub data ReconcileOutcome : Type 0 where
  coherent fell_back neutralised : ReconcileOutcome

-- The full stop, which `rstrip(".")` takes away.
unfoldable pub is_stop : ℕ → Bool
is_stop c = c == b'.'

module _ (fl : Floats) where
  abbrev num : ℕ → fl.Float
  num n = fl.of_ℤ (pos n)

  unfoldable pub last_word_grew : GuardConfig fl → Text → Text → Bool
  unfolding strip_trailing_break_marks
  last_word_grew cfg ocr_last corrected_last =
      ltb (length (strip_trailing_break_marks ocr_last) + cfg.part1_last_word_char_growth)
        (length (strip_trailing_break_marks corrected_last))

  unfoldable pub part1_text_migrated : GuardConfig fl → Text → Text → Bool
  unfolding strip_trailing_break_marks is_stop rstrip rstrip_by words last_word both_words
      last_word_grew
  part1_text_migrated cfg ocr_text corrected_text =
      let ocr_bare = rstrip (strip_trailing_break_marks ocr_text) in
      let corrected_bare = rstrip_by is_stop (strip_trailing_break_marks corrected_text) in
      let ocr_words = words ocr_bare in
      let corrected_words = words corrected_bare in
      ltb (length ocr_words + cfg.part1_max_word_growth) (length corrected_words)
      || both_words (last_word_grew cfg) (last_word ocr_words) (last_word corrected_words)
      || fl.lt
          (fl.add (fl.mul (num (length ocr_bare)) cfg.part1_char_growth_ratio)
            (num cfg.part1_char_growth_slack))
          (num (length corrected_bare))

  unfoldable pub part2_text_migrated : GuardConfig fl → Text → Text → Bool
  unfolding words
  part2_text_migrated cfg ocr_text corrected_text =
      let o = length (words ocr_text) in
      let c = length (words corrected_text) in
      (ltb 0 o && fl.lt (num c) (fl.mul (num o) cfg.part2_collapse_ratio))
      || ltb
          (o + max cfg.part2_expansion_floor (fl.trunc (fl.mul (num o) cfg.part2_expansion_ratio)))
          c

  module _ (uni : Unicode) where
    -- Two case-folded words at the boundary that do not read as corrections of one another.
    unfoldable pub folded_diverged : GuardConfig fl → Text → Text → Bool
    folded_diverged cfg ocr_first cor_first =
        let prefix_len = min cfg.boundary_prefix_len (min (length ocr_first) (length cor_first)) in
        let ratio = fl.ratio (length cor_first) (max 1 (length ocr_first)) in
        not (
          text_eq ocr_first cor_first
          || (leb cfg.boundary_prefix_len prefix_len
              && text_eq (take prefix_len ocr_first) (take prefix_len cor_first)
              && fl.le cfg.boundary_len_ratio_min ratio
              && fl.le ratio cfg.boundary_len_ratio_max))

    unfoldable pub part2_boundary_word_diverged : GuardConfig fl → Text → Text → Bool
    unfolding both_words first_word words folded_diverged
    part2_boundary_word_diverged cfg ocr_text corrected_text =
        both_words (λ o c. folded_diverged cfg (uni.ncfold o) (uni.ncfold c))
          (first_word (words ocr_text)) (first_word (words corrected_text))

    -- The word that two halves make once the break mark of the first is gone.
    unfoldable pub joined_word : Text → Text → Text
    unfolding strip_trailing_break_marks
    joined_word left right = strip_trailing_break_marks left ++ right

    unfoldable pub joins_to : Text → Text → Option Text → Bool
    unfolding joined_word
    joins_to left right none = false
    joins_to left right (some s) = text_eq (uni.ncfold (joined_word left right)) (uni.ncfold s)

    -- The verdict once both texts have words: their boundary words are given.
    unfoldable pub judge_words :
        GuardConfig fl
        → (explicit : Bool) (subs preserved : Option Text) (ocr2 c1 c2 : Text) → (left right : Text)
        → Option Reconciled
    judge_words cfg explicit subs preserved ocr2 c1 c2 left right =
        if explicit && declares subs
        then (if joins_to left right subs
            then some (record { text1 = c1; text2 = c2; subs = subs })
            else none)
        else if part2_boundary_word_diverged cfg ocr2 c2
        then none
        else some (record { text1 = c1; text2 = c2; subs = if explicit then none else preserved })

    -- `none` where the two texts fall back.
    unfoldable pub judge_pair :
        GuardConfig fl
        → (explicit : Bool) (subs preserved : Option Text) (ocr1 ocr2 c1 c2 : Text)
        → Option Reconciled
    judge_pair cfg explicit subs preserved ocr1 ocr2 c1 c2 =
        if part1_text_migrated cfg ocr1 c1
          || part2_text_migrated cfg ocr2 c2
          || not (ends_with_break_mark c1)
        then none
        else elim (last_word (words c1)) [
          | none ↦ none
          | some left ↦ elim (first_word (words c2)) [
            | none ↦ none
            | some right ↦
                if ltb (length (words ocr2)) (length (words c2))
                then none
                else judge_words cfg explicit subs preserved ocr2 c1 c2 left right
          ]
        ]

    -- `subs_content` is `none` where the caller leaves it to the line (`_SENTINEL`).
    unfoldable pub reconcile_hyphen_pair :
        GuardConfig fl
        → LineManifest
        → LineManifest
        → (c1 c2 : Text) → (subs_content : Option (Option Text)) (source_explicit : Option Bool)
        → Reconciled
    unfolding given_or
    reconcile_hyphen_pair cfg part1 part2 c1 c2 subs_content source_explicit =
        given_or
          (judge_pair cfg (given_or source_explicit part1.hyphen_source_explicit)
            (given_or subs_content part1.hyphen_subs_content) (given_or subs_content none)
            part1.ocr_text part2.ocr_text c1 c2)
          (record { text1 = part1.ocr_text; text2 = part2.ocr_text; subs = none })

unfoldable pub classify_reconcile_outcome : (ocr1 ocr2 c1 c2 : Text) → Reconciled → ReconcileOutcome
unfolding is_none
classify_reconcile_outcome ocr1 ocr2 c1 c2 final =
    let proposed_change = not (text_eq c1 ocr1) || not (text_eq c2 ocr2) in
    let reverted = text_eq final.text1 ocr1 && text_eq final.text2 ocr2 in
    if reverted && proposed_change
    then ReconcileOutcome.fell_back
    else if is_none final.subs
    then ReconcileOutcome.neutralised
    else ReconcileOutcome.coherent
