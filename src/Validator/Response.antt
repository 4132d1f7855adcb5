-- ===== src/Validator/Response.antt =====
-- `validate_llm_response` and `_validate_hyphen_integrity` of core/validator.py, on the entries that
-- the parent module checks one by one.
use corrigenda.Base.{
  lookup, ℕ, ◌+◌, Bool, false, not, ◌&&◌, ◌||◌, Option, none, some, List, [], ◌∷◌, String, Text,
  str_eq, is_in, pos, length, words, rstrip, text_eq, is_empty, ltb, leb, ◌==◌, if◌then◌else◌,
}
use corrigenda.Floats.{Floats, Unicode}
use corrigenda.Policies.{GuardConfig}
use corrigenda.Marks.{strip_trailing_break_marks, last_word}
use corrigenda.Retry.{Exc}
use corrigenda.Validator.{
  Json, LineProposal, Outcome, all_in, check_entries, get_field, ids_of, items, json_list,
  json_object, or_null, raised, returned, text_at, texts_of,
}

-- The exception of a check, if it fails.
unfoldable pub first_fault : Option Exc → Option Exc → Option Exc
first_fault none later = later
first_fault (some e) later = some e

unfoldable pub same_pair : String × String → String × String → Bool
same_pair (a, b) (c, d) = (str_eq a c && str_eq b d) || (str_eq a d && str_eq b c)

unfoldable pub pair_in : String × String → List (String × String) → Bool
unfolding same_pair
pair_in p [] = false
pair_in p (q ∷ qs) = same_pair p q || pair_in p qs

-- `d or {}`
unfoldable pub or_none {ℓ} : {A : Type ℓ} → Option (List A) → List A
or_none none = []
or_none (some d) = d

-- The list under "lines", if the answer is an object that has one there.
unfoldable pub raw_lines : Json → Option (List Json)
raw_lines (json_object fs) = elim (or_null (get_field "lines" fs)) [
  | json_list js ↦ some (items js)
  | _ ↦ none
]
raw_lines _ = none

-- The count of entries: all the lines, or, of a chunk with targets, no more than were sent.
unfoldable pub count_fits : Option (List String) → ℕ → ℕ → Bool
count_fits none expected given = expected == given
count_fits (some targets) expected given = leb given expected

unfoldable pub check_set : Option (List String) → List String → List String
check_set none expected = expected
check_set (some targets) expected = targets

-- The arguments of `validate_llm_response` that say what the producer was asked.
pub record Request : Type 0 where
  pub expected_line_ids : List String
  pub hyphen_pairs : Option (List (String × String))
  pub ocr_texts : Option (List (String × Text))
  pub hyphen_subs : Option (List (String × Text))

module _ (fl : Floats) (uni : Unicode) (config : GuardConfig fl) where
  -- `_check_pair_drift`
  unfoldable pub check_pair_drift : Text → Text → Text → Text → Option Exc
  check_pair_drift text_a text_b ocr_a ocr_b =
      if ltb (length (words ocr_a) + config.pair_drift_part1_word_growth) (length (words text_a))
      then some Exc.hyphen_integrity
      else if leb config.pair_drift_part2_min_words (length (words ocr_b))
          && fl.lt (fl.of_ℤ (pos (length (words text_b))))
              (fl.mul (fl.of_ℤ (pos (length (words ocr_b)))) config.pair_drift_part2_collapse_ratio)
      then some Exc.hyphen_integrity
      else none

  -- The first loop of `_validate_hyphen_integrity` on one pair.
  unfoldable pub check_pair : Text → Text → Text → Text → Option Exc
  check_pair text_a text_b ocr_a ocr_b =
      if is_empty text_a || is_empty text_b
      then some Exc.hyphen_integrity
      else if is_empty ocr_a || is_empty ocr_b
      then none
      else check_pair_drift text_a text_b ocr_a ocr_b

  unfoldable pub check_pairs :
      List (String × Text)
      → List String
      → List (String × Text)
      → List (String × String)
      → List (String × String)
      → Option Exc
  check_pairs texts chunk ocr checked [] = none
  check_pairs texts chunk ocr checked ((a, b) ∷ pairs) =
      let skipped = check_pairs texts chunk ocr checked pairs in
      let later = check_pairs texts chunk ocr ((a, b) ∷ checked) pairs in
      if pair_in (a, b) checked
      then skipped
      else if not (is_in a chunk && is_in b chunk)
      then skipped
      else first_fault
          (check_pair (text_at a texts) (text_at b texts) (text_at a ocr) (text_at b ocr)) later

  -- `ncfold(words[-1]) == ncfold(subs_content)`, false if there is no word.
  unfoldable pub ends_on : Text → Text → Bool
  ends_on text subs = elim (last_word (words (strip_trailing_break_marks (rstrip text)))) [
    | none ↦ false
    | some w ↦ text_eq (uni.ncfold w) (uni.ncfold subs)
  ]

  -- The second loop: whether a first part took the whole word.
  unfoldable pub is_fused :
      List (String × Text) → List String → List (String × Text) → String → Text → Bool
  is_fused texts chunk ocr part1 subs =
      is_in part1 chunk
      && not (is_empty subs)
      && (elim (lookup part1 texts) [ none ↦ false | some t ↦ ends_on t subs ])
      && not (ends_on (text_at part1 ocr) subs)

  unfoldable pub check_subs :
      List (String × Text) → List String → List (String × Text) → List (String × Text) → Option Exc
  check_subs texts chunk ocr [] = none
  check_subs texts chunk ocr ((part1, subs) ∷ rest) =
      if is_fused texts chunk ocr part1 subs
      then some Exc.hyphen_integrity
      else check_subs texts chunk ocr rest

  unfoldable pub validate_hyphen_integrity :
      List (String × Text)
      → List (String × String)
      → List String
      → List (String × Text)
      → List (String × Text)
      → Option Exc
  validate_hyphen_integrity texts pairs chunk ocr subs =
      first_fault (check_pairs texts chunk ocr [] pairs) (check_subs texts chunk ocr subs)

  -- `if hyphen_pairs:` and what follows it
  unfoldable pub check_hyphens :
      Option (List (String × String))
      → Option (List (String × Text))
      → Option (List (String × Text))
      → List String
      → List LineProposal
      → Outcome (List LineProposal)
  unfolding validate_hyphen_integrity
  check_hyphens none ocr_texts subs check ps = returned ps
  check_hyphens (some []) ocr_texts subs check ps = returned ps
  check_hyphens (some (pair ∷ pairs)) ocr_texts subs check ps =
      elim (validate_hyphen_integrity (texts_of ps) (pair ∷ pairs) check (or_none ocr_texts)
        (or_none subs)) [ none ↦ returned ps | some e ↦ raised e ]

  -- What follows the loop: no target is missing, then the hyphens.
  unfoldable pub check_complete :
      Option (List (String × String))
      → Option (List (String × Text))
      → Option (List (String × Text))
      → List String
      → Outcome (List LineProposal)
      → Outcome (List LineProposal)
  check_complete pairs ocr_texts subs check (raised e) = raised e
  check_complete pairs ocr_texts subs check (returned ps) =
      if all_in check (ids_of ps)
      then check_hyphens pairs ocr_texts subs check ps
      else raised Exc.proposal_validation

  unfoldable pub validate_lines :
      Request → Option (List String) → List Json → Outcome (List LineProposal)
  unfolding count_fits check_set
  validate_lines request targets js =
      if count_fits targets (length request.expected_line_ids) (length js)
      then check_complete request.hyphen_pairs request.ocr_texts request.hyphen_subs
          (check_set targets request.expected_line_ids)
          (check_entries request.ocr_texts request.expected_line_ids [] js)
      else raised Exc.proposal_validation

  unfoldable pub validate_llm_response :
      Request → Option (List String) → Json → Outcome (List LineProposal)
  validate_llm_response request targets raw = elim (raw_lines raw) [
    | none ↦ raised Exc.proposal_validation
    | some js ↦ validate_lines request targets js
  ]
