-- ===== src/Validator/Entries.antt =====
-- What the loop of `validate_llm_response` over the answer's entries lets through.
use corrigenda.Base.{
  true, false, ◌≡◌, refl, ◌∙◌, ap, sym, ◌⊎◌, inl, inr, Option, none, some, List, [], ◌∷◌, String,
  Text, codes, is_in, is_blank, arith, Bool-cases,
}
use corrigenda.Editing.Drift.{has_line_separator}
use corrigenda.Retry.{Exc}
use corrigenda.Validator.{
  Json, json_null, json_bool, json_number, json_string, json_list, json_object, JsonFields,
  no_items, item, no_fields, field, Outcome, returned, raised, LineProposal, get_field, or_null,
  checked_id, source_is_blank, blank_text, checked_text, one_line, checked_fields, check_entry,
  then_lines, check_entries,
}

pub Outcome-cases {ℓ} :
    {A : Type ℓ} (o : Outcome A) → ((a : A) × (o ≡ returned a)) ⊎ ((e : Exc) × (o ≡ raised e))
Outcome-cases (returned a) = inl (a, refl)
Outcome-cases (raised e) = inr (e, refl)

or_null-string :
    (o : Option Json) (s : String) → or_null o ≡ json_string s → o ≡ some (json_string s)
unfolding or_null
or_null-string none s h = cc
or_null-string (some j) s h = ap some h

module _ (ocr_texts : Option (List (String × Text))) (expected : List String) where
  -- Where a line's text is from: the entry's own, which is not blank, or nothing, on a line whose
  -- source is blank too.
  pub record IsOwnText (fs : JsonFields) (text : Text) : Type 0 where
    pub written : String
    pub found : get_field "corrected_text" fs ≡ some (json_string written)
    pub same : text ≡ codes written
    pub not_blank : is_blank text ≡ false

  abbrev pub IsTextOf : JsonFields → String → Text → Type 0
  IsTextOf fs line_id text =
      IsOwnText fs text ⊎ ((text ≡ []) × (source_is_blank ocr_texts line_id ≡ true))

  -- A proposal made from one entry of the answer.
  pub record IsEntry (j : Json) (p : LineProposal) : Type 0 where
    pub fields : JsonFields
    pub is_object : j ≡ json_object fields
    pub named : get_field "line_id" fields ≡ some (json_string p.line_id)
    pub known : is_in p.line_id expected ≡ true
    pub text_of : IsTextOf fields p.line_id p.corrected_text
    pub is_one_line : has_line_separator p.corrected_text ≡ false

  -- One proposal for each entry, in the order of the answer.
  pub data Matches : List Json → List LineProposal → Type 0 where
    no_entries : Matches [] []
    one_more :
        (j : Json) (p : LineProposal) (js : List Json) (ps : List LineProposal)
        → IsEntry j p
        → Matches js ps
        → Matches (j ∷ js) (p ∷ ps)

  checked_id-returned :
      (seen : List String) (j : Json) (i : String)
      → checked_id expected seen j ≡ returned i
      → (j ≡ json_string i) × (is_in i seen ≡ false) × (is_in i expected ≡ true)
  unfolding checked_id
  checked_id-returned seen json_null i h = cc
  checked_id-returned seen (json_bool b) i h = cc
  checked_id-returned seen (json_number z) i h = cc
  checked_id-returned seen (json_list no_items) i h = cc
  checked_id-returned seen (json_list (item j js)) i h = cc
  checked_id-returned seen (json_object no_fields) i h = cc
  checked_id-returned seen (json_object (field n v rest)) i h = cc
  checked_id-returned seen (json_string s) i h = (ground arith, ground arith, ground arith)

  blank_text-returned :
      (fs : JsonFields) (line_id : String) (text : Text)
      → blank_text ocr_texts line_id ≡ returned text
      → IsTextOf fs line_id text
  unfolding blank_text
  blank_text-returned fs line_id text h = inr (ground arith, ground arith)

  checked_text-returned :
      (fs : JsonFields) (line_id : String) (j : Json) (text : Text)
      → or_null (get_field "corrected_text" fs) ≡ j
      → checked_text ocr_texts line_id j ≡ returned text
      → IsTextOf fs line_id text
  unfolding checked_text
  checked_text-returned fs line_id json_null text e h = blank_text-returned fs line_id text h
  checked_text-returned fs line_id (json_bool b) text e h = blank_text-returned fs line_id text h
  checked_text-returned fs line_id (json_number z) text e h = blank_text-returned fs line_id text h
  checked_text-returned fs line_id (json_list js) text e h = blank_text-returned fs line_id text h
  checked_text-returned fs line_id (json_object os) text e h = blank_text-returned fs line_id text h
  checked_text-returned fs line_id (json_string t) text e h =
      elim (Bool-cases (is_blank (codes t))) [
        | inl b ↦ blank_text-returned fs line_id text (ground (arith, b))
        | inr b ↦
            let same : text ≡ codes t = ground (arith, b) in
            inl (record {
              written = t;
              found = or_null-string _ t e;
              same = same;
              not_blank = ap is_blank same ∙ b;
            })
      ]

  one_line-returned :
      (line_id : String) (c : Outcome Text) (p : LineProposal)
      → one_line line_id c ≡ returned p
      → (p.line_id ≡ line_id)
        × (c ≡ returned p.corrected_text)
        × (has_line_separator p.corrected_text ≡ false)
  unfolding one_line
  one_line-returned line_id (raised e) p h = cc
  one_line-returned line_id (returned t) p h = (ground arith, ground arith, ground arith)

  check_entry-returned :
      (seen : List String) (j : Json) (p : LineProposal)
      → check_entry ocr_texts expected seen j ≡ returned p
      → IsEntry j p × (is_in p.line_id seen ≡ false)
  unfolding check_entry checked_fields
  check_entry-returned seen json_null p h = cc
  check_entry-returned seen (json_bool b) p h = cc
  check_entry-returned seen (json_number z) p h = cc
  check_entry-returned seen (json_string s) p h = cc
  check_entry-returned seen (json_list js) p h = cc
  check_entry-returned seen (json_object fs) p h =
      elim (Outcome-cases (checked_id expected seen (or_null (get_field "line_id" fs)))) [
        | inr (e, q) ↦ absurd (ground (arith, q))
        | inl (i, q) ↦
            let (here, fresh, known) = checked_id-returned seen _ i q in
            let (same, made, flat) = one_line-returned i _ p (ground (arith, q)) in
            (
              record {
                fields = fs;
                is_object = refl;
                named = or_null-string _ _ (here ∙ ap json_string (sym same));
                known = rw same known;
                text_of = rw same (checked_text-returned fs i _ p.corrected_text refl made);
                is_one_line = flat;
              },
              rw same fresh,
            )
      ]

  -- No identifier comes twice, nor is it among those seen before.
  abbrev pub Unique : List String → List LineProposal → Type 0
  Unique seen [] = Unit
  Unique seen (p ∷ ps) = (is_in p.line_id seen ≡ false) × Unique (p.line_id ∷ seen) ps

  then_lines-returned :
      (p : LineProposal) (o : Outcome (List LineProposal)) (ps : List LineProposal)
      → then_lines p o ≡ returned ps
      → (qs : List LineProposal) × (o ≡ returned qs) × (ps ≡ p ∷ qs)
  unfolding then_lines
  then_lines-returned p (raised e) ps h = cc
  then_lines-returned p (returned qs) ps h = (qs, refl, ground arith)

  pub check_entries-returned :
      (seen : List String) (js : List Json) (ps : List LineProposal)
      → check_entries ocr_texts expected seen js ≡ returned ps
      → Matches js ps × Unique seen ps
  unfolding check_entries
  check_entries-returned seen [] ps h =
      let none_of : ps ≡ [] = ground arith in rw none_of (no_entries, tt)
  check_entries-returned seen (j ∷ js) ps h =
      elim (Outcome-cases (check_entry ocr_texts expected seen j)) [
        | inr (e, q) ↦ absurd (ground (arith, q))
        | inl (p, q) ↦
            let (one, fresh) = check_entry-returned seen j p q in
            let (qs, rest, same) =
              then_lines-returned p (check_entries ocr_texts expected (p.line_id ∷ seen) js) ps
                (ground (arith, q)) in
            let (more, unique) = check_entries-returned (p.line_id ∷ seen) js qs rest in
            rw same (one_more j p js qs one more, (fresh, unique))
      ]
