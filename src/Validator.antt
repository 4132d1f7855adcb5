-- ===== src/Validator.antt =====
-- core/validator.py: the structural checks on the entries of a producer's answer. A Python exception is a value of `Exc` (core/retry.py tells them apart by class).
pub mod Response
pub mod Entries
pub mod Accepted
use corrigenda.Base.{
  lookup, ℕ, ◌+◌, Bool, true, false, ◌&&◌, ◌||◌, not, Option, none, some, List, [], ◌∷◌, ◌++◌,
  String, Text, codes, str_eq, is_in, pos, length, words, rstrip, text_eq, is_empty, is_blank, ltb,
  leb, ◌==◌, if◌then◌else◌,
}
use corrigenda.Floats.{Floats, Unicode}
use corrigenda.Policies.{GuardConfig}
use corrigenda.Marks.{strip_trailing_break_marks, last_word}
use corrigenda.Editing.Drift.{has_line_separator}
use corrigenda.Retry.{Exc}

-- A parsed JSON value. Of a number the code reads only whether it is zero.
mutual
  pub data Json : Type 0 where
    json_null : Json
    json_bool : Bool → Json
    json_number : (is_zero : Bool) → Json
    json_string : String → Json
    json_list : JsonList → Json
    json_object : JsonFields → Json

  pub data JsonList : Type 0 where
    no_items : JsonList
    item : Json → JsonList → JsonList

  pub data JsonFields : Type 0 where
    no_fields : JsonFields
    field : String → Json → JsonFields → JsonFields

-- What a call comes to: a value, or an exception.
pub data Outcome {ℓ} (A : Type ℓ) : Type ℓ where
  returned : A → Outcome A
  raised : Exc → Outcome A

pub record LineProposal : Type 0 where
  pub line_id : String
  pub corrected_text : Text

unfoldable pub items : JsonList → List Json
items no_items = []
items (item j js) = j ∷ items js

-- `entry.get(name)`, with `None` as JSON's null.
unfoldable pub get_field : String → JsonFields → Option Json
get_field name no_fields = none
get_field name (field n v rest) = if str_eq n name then some v else get_field name rest

unfoldable pub or_null : Option Json → Json
or_null none = json_null
or_null (some j) = j

-- `not line_id`, then `line_id in seen_ids`, which hashes it: a list or an object raises TypeError.
-- No other value than a string is in the set of expected identifiers.
unfoldable pub checked_id : List String → List String → Json → Outcome String
checked_id expected seen json_null = raised Exc.proposal_validation
checked_id expected seen (json_bool b) = raised Exc.proposal_validation
checked_id expected seen (json_number z) = raised Exc.proposal_validation
checked_id expected seen (json_list no_items) = raised Exc.proposal_validation
checked_id expected seen (json_list (item j js)) = raised Exc.other
checked_id expected seen (json_object no_fields) = raised Exc.proposal_validation
checked_id expected seen (json_object (field n v rest)) = raised Exc.other
checked_id expected seen (json_string i) =
    if str_eq i ""
    then raised Exc.proposal_validation
    else if is_in i seen
    then raised Exc.proposal_validation
    else if is_in i expected
    then returned i
    else raised Exc.proposal_validation

-- Whether the source of the line is blank, in the dictionary of the OCR texts if there is one.
unfoldable pub source_is_blank : Option (List (String × Text)) → String → Bool
source_is_blank none line_id = false
source_is_blank (some ocr) line_id = elim (lookup line_id ocr) [
  | none ↦ false
  | some t ↦ is_blank t
]

-- `_checked_text` on a text that is empty or no text
unfoldable pub blank_text : Option (List (String × Text)) → String → Outcome Text
blank_text ocr_texts line_id =
    if source_is_blank ocr_texts line_id then returned [] else raised Exc.proposal_validation

unfoldable pub checked_text : Option (List (String × Text)) → String → Json → Outcome Text
checked_text ocr_texts line_id (json_string t) =
    if is_blank (codes t) then blank_text ocr_texts line_id else returned (codes t)
checked_text ocr_texts line_id json_null = blank_text ocr_texts line_id
checked_text ocr_texts line_id (json_bool b) = blank_text ocr_texts line_id
checked_text ocr_texts line_id (json_number z) = blank_text ocr_texts line_id
checked_text ocr_texts line_id (json_list js) = blank_text ocr_texts line_id
checked_text ocr_texts line_id (json_object fs) = blank_text ocr_texts line_id

unfoldable pub one_line : String → Outcome Text → Outcome LineProposal
one_line line_id (raised e) = raised e
one_line line_id (returned t) =
    if has_line_separator t
    then raised Exc.proposal_validation
    else returned (record { line_id = line_id; corrected_text = t })

-- The loop's body on one entry, once its identifier is checked.
unfoldable pub checked_fields :
    Option (List (String × Text)) → JsonFields → Outcome String → Outcome LineProposal
checked_fields ocr_texts fs (raised e) = raised e
checked_fields ocr_texts fs (returned i) =
    one_line i (checked_text ocr_texts i (or_null (get_field "corrected_text" fs)))

unfoldable pub check_entry :
    Option (List (String × Text)) → List String → List String → Json → Outcome LineProposal
check_entry ocr_texts expected seen (json_object fs) =
    checked_fields ocr_texts fs (checked_id expected seen (or_null (get_field "line_id" fs)))
check_entry ocr_texts expected seen json_null = raised Exc.proposal_validation
check_entry ocr_texts expected seen (json_bool b) = raised Exc.proposal_validation
check_entry ocr_texts expected seen (json_number z) = raised Exc.proposal_validation
check_entry ocr_texts expected seen (json_string s) = raised Exc.proposal_validation
check_entry ocr_texts expected seen (json_list js) = raised Exc.proposal_validation

unfoldable pub then_lines : LineProposal → Outcome (List LineProposal) → Outcome (List LineProposal)
then_lines p (raised e) = raised e
then_lines p (returned ps) = returned (p ∷ ps)

-- The loop over `lines_raw`.
unfoldable pub check_entries :
    Option (List (String × Text))
    → List String
    → List String
    → List Json
    → Outcome (List LineProposal)
check_entries ocr_texts expected seen [] = returned []
check_entries ocr_texts expected seen (j ∷ js) = elim (check_entry ocr_texts expected seen j) [
  | raised e ↦ raised e
  | returned p ↦ then_lines p (check_entries ocr_texts expected (p.line_id ∷ seen) js)
]

-- `check_set - seen_ids` is empty
unfoldable pub all_in : List String → List String → Bool
all_in [] seen = true
all_in (i ∷ is) seen = is_in i seen && all_in is seen

unfoldable pub ids_of : List LineProposal → List String
ids_of [] = []
ids_of (p ∷ ps) = p.line_id ∷ ids_of ps

unfoldable pub texts_of : List LineProposal → List (String × Text)
texts_of [] = []
texts_of (p ∷ ps) = (p.line_id, p.corrected_text) ∷ texts_of ps

-- `dict.get(id, "")`
unfoldable pub text_at : String → List (String × Text) → Text
unfolding lookup
text_at i d = elim (lookup i d) [ none ↦ [] | some t ↦ t ]
