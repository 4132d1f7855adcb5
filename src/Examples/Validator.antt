-- ===== src/Examples/Validator.antt =====
-- Examples for Validator (core/validator.py).
use corrigenda.Base.{
  lookup, ◌≡◌, refl, none, some, List, [], ◌∷◌, String, codes, text_eq, is_space, is_empty, keep_if,
  rstrip_by, rstrip, lstrip, strip, is_blank, in_word, push_char, words, is_in,
}
use corrigenda.Validator.{
  Json, json_string, json_list, json_object, JsonList, no_items, item, no_fields, field, returned,
  raised, Outcome, LineProposal, items, get_field, or_null, checked_id, source_is_blank, blank_text,
  checked_text, one_line, checked_fields, check_entry, then_lines, check_entries, all_in, ids_of,
  texts_of, text_at,
}
use corrigenda.Validator.Response.{
  Request, first_fault, same_pair, pair_in, or_none, raw_lines, count_fits, check_set,
  check_pair_drift, check_pair, check_pairs, ends_on, is_fused, check_subs,
  validate_hyphen_integrity, check_hyphens, check_complete, validate_lines, validate_llm_response,
}
use corrigenda.Marks.{char_in, is_break_mark, strip_trailing_break_marks, last_word}
use corrigenda.Editing.Drift.{has_line_separator, is_separator}
use corrigenda.Retry.{Exc}
use corrigenda.Validator.Accepted.{IsValid, validate_llm_response-IsValid}
use corrigenda.Examples.Samples.{fractions, plain, default_guard}

abbrev entry : String → String → Json
entry i t =
    json_object (field "line_id" (json_string i) (field "corrected_text" (json_string t) no_fields))

abbrev answer : JsonList → Json
answer entries = json_object (field "lines" (json_list entries) no_fields)

-- Two halves of a word.
abbrev request : Request
request = record {
  expected_line_ids = "a" ∷ "b" ∷ [];
  hyphen_pairs = some (("a", "b") ∷ ("b", "a") ∷ []);
  ocr_texts = some (("a", codes "the intcr-") ∷ ("b", codes "nal end") ∷ []);
  hyphen_subs = none;
}

abbrev good : Json
good = answer (item (entry "a" "the inter-") (item (entry "b" "nal end") no_items))

abbrev proposed : List LineProposal
proposed =
    record { line_id = "a"; corrected_text = codes "the inter-" }
    ∷ record { line_id = "b"; corrected_text = codes "nal end" }
    ∷ []

unfoldable validated : Json → Outcome (List LineProposal)
unfolding items get_field or_null lookup checked_id source_is_blank blank_text checked_text one_line
    checked_fields check_entry then_lines check_entries all_in ids_of texts_of text_at first_fault
    same_pair pair_in or_none raw_lines count_fits check_set check_pair_drift check_pair check_pairs
    ends_on is_fused check_subs validate_hyphen_integrity check_hyphens check_complete
    validate_lines validate_llm_response text_eq is_space is_empty keep_if rstrip_by rstrip lstrip
    strip is_blank in_word push_char words is_in char_in is_break_mark strip_trailing_break_marks
    last_word has_line_separator is_separator
validated raw = validate_llm_response fractions plain default_guard request none raw

accepts : validate_llm_response fractions plain default_guard request none good ≡ returned proposed
unfolding validated
accepts = refl

validate_llm_response-IsValid_example :
    IsValid fractions plain default_guard request none good proposed
validate_llm_response-IsValid_example =
    validate_llm_response-IsValid fractions plain default_guard request none good proposed accepts

-- An answer that names a line twice is refused.
duplicate_test :
    validated (answer (item (entry "a" "the inter-") (item (entry "a" "nal end") no_items)))
    ≡ raised Exc.proposal_validation
unfolding validated
duplicate_test = refl

-- A list in place of an identifier cannot be hashed: the exception is not a validation error.
unhashable_test :
    validated (
      answer (
        item
          (json_object (field "line_id" (json_list (item (json_string "a") no_items)) no_fields))
          (item (entry "b" "nal end") no_items)))
    ≡ raised Exc.other
unfolding validated
unhashable_test = refl
