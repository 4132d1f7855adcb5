-- ===== src/Validator/Accepted.antt =====
-- What an answer that `validate_llm_response` accepts satisfies.
use corrigenda.Base.{
  true, false, ◌&&◌, ◌≡◌, refl, sym, inl, inr, Option, none, some, List, [], ◌∷◌, String, Text,
  eq_iff, is_in, is_empty, length, All, arith, Bool-cases, Option-cases,
}
use corrigenda.Floats.{Floats, Unicode}
use corrigenda.Policies.{GuardConfig}
use corrigenda.Retry.{Exc}
use corrigenda.Validator.{
  Json, returned, LineProposal, ids_of, texts_of, all_in, text_at, check_entries,
}
use corrigenda.Validator.Response.{
  Request, raw_lines, count_fits, check_set, first_fault, pair_in, same_pair, check_pair,
  check_pairs, validate_hyphen_integrity, or_none, check_hyphens, check_complete, validate_lines,
  validate_llm_response,
}
use corrigenda.Validator.Entries.{Matches, Unique, Outcome-cases, check_entries-returned}

-- Both halves of a pair have a text.
abbrev pub HasTexts : List (String × Text) → String × String → Type 0
HasTexts texts (a, b) = (is_empty (text_at a texts) ≡ false) × (is_empty (text_at b texts) ≡ false)

-- A pair of which the chunk is to answer both lines has a text for both.
abbrev pub IsPairKept : List (String × Text) → List String → String × String → Type 0
IsPairKept texts chunk (a, b) = is_in a chunk && is_in b chunk ≡ true → HasTexts texts (a, b)

HasTexts-same_pair :
    (texts : List (String × Text)) (p q : String × String)
    → same_pair p q ≡ true
    → HasTexts texts q
    → HasTexts texts p
unfolding same_pair
HasTexts-same_pair texts (a, b) (c, d) h (x, y) = (
  ground (arith, eq_iff a c, eq_iff b d, eq_iff a d, eq_iff b c),
  ground (arith, eq_iff a c, eq_iff b d, eq_iff a d, eq_iff b c),
)

HasTexts-pair_in :
    (texts : List (String × Text)) (p : String × String) (checked : List (String × String))
    → pair_in p checked ≡ true
    → All (HasTexts texts) checked
    → HasTexts texts p
unfolding pair_in
HasTexts-pair_in texts p [] h a = cc
HasTexts-pair_in texts p (q ∷ qs) h (a, rest) = elim (Bool-cases (same_pair p q)) [
  | inl e ↦ HasTexts-same_pair texts p q e a
  | inr e ↦ HasTexts-pair_in texts p qs (ground (arith, e)) rest
]

all_in→All : (is seen : List String) → all_in is seen ≡ true → All (λ i. is_in i seen ≡ true) is
unfolding all_in
all_in→All [] seen h = tt
all_in→All (i ∷ is) seen h = (ground arith, all_in→All is seen (ground arith))

first_fault-none : (a b : Option Exc) → first_fault a b ≡ none → (a ≡ none) × (b ≡ none)
unfolding first_fault
first_fault-none none b h = (refl, h)
first_fault-none (some e) b h = cc

module _ (fl : Floats) (uni : Unicode) (config : GuardConfig fl) where
  HasTexts-check_pair :
      (texts ocr : List (String × Text)) (p : String × String)
      → check_pair fl uni config
          (text_at p.0 texts)
          (text_at p.1 texts)
          (text_at p.0 ocr)
          (text_at p.1 ocr)
        ≡ none
      → HasTexts texts p
  unfolding check_pair
  HasTexts-check_pair texts ocr (a, b) h = (ground arith, ground arith)

  check_pairs-none :
      (texts : List (String × Text)) (chunk : List String) (ocr : List (String × Text))
      (pairs checked : List (String × String))
      → All (HasTexts texts) checked
      → check_pairs fl uni config texts chunk ocr checked pairs ≡ none
      → All (IsPairKept texts chunk) pairs
  unfolding check_pairs
  check_pairs-none texts chunk ocr [] checked k h = tt
  check_pairs-none texts chunk ocr ((a, b) ∷ pairs) checked k h =
      elim (Bool-cases (pair_in (a, b) checked)) [
        | inl e ↦ (
          (λ _. HasTexts-pair_in texts (a, b) checked e k),
          check_pairs-none texts chunk ocr pairs checked k (ground (arith, e)),
        )
        | inr e ↦ elim (Bool-cases (is_in a chunk && is_in b chunk)) [
          | inr c ↦ (
            (λ t. absurd (ground arith)),
            check_pairs-none texts chunk ocr pairs checked k (ground (arith, e, c)),
          )
          | inl c ↦
              let (now, later) = first_fault-none _ _ (ground (arith, e, c)) in
              let here = HasTexts-check_pair texts ocr (a, b) now in
              (
                (λ _. here),
                check_pairs-none texts chunk ocr pairs ((a, b) ∷ checked) (here, k) later,
              )
        ]
      ]

  -- An answer that was accepted.
  pub record IsValid (request : Request) (targets : Option (List String)) (raw : Json)
      (ps : List LineProposal) : Type 0 where
    pub entries : List Json
    pub listed : raw_lines raw ≡ some entries
    pub counted : count_fits targets (length request.expected_line_ids) (length entries) ≡ true
    pub made : Matches request.ocr_texts request.expected_line_ids entries ps
    pub unique : Unique request.ocr_texts request.expected_line_ids [] ps
    pub complete :
        All (λ i. is_in i (ids_of ps) ≡ true) (check_set targets request.expected_line_ids)
    pub pairs_kept :
        All
          (IsPairKept (texts_of ps) (check_set targets request.expected_line_ids))
          (or_none request.hyphen_pairs)

  check_hyphens-returned :
      (pairs : Option (List (String × String))) (ocr subs : Option (List (String × Text)))
      (check : List String) (ps qs : List LineProposal)
      → check_hyphens fl uni config pairs ocr subs check ps ≡ returned qs
      → (ps ≡ qs) × All (IsPairKept (texts_of ps) check) (or_none pairs)
  unfolding check_hyphens validate_hyphen_integrity or_none
  check_hyphens-returned none ocr subs check ps qs h = (ground arith, tt)
  check_hyphens-returned (some []) ocr subs check ps qs h = (ground arith, tt)
  check_hyphens-returned (some (p ∷ pairs)) ocr subs check ps qs h =
      elim (Option-cases (
        validate_hyphen_integrity fl uni config (texts_of ps) (p ∷ pairs) check (or_none ocr)
          (or_none subs))) [
            | inl e ↦ (
              ground (arith, e),
              check_pairs-none (texts_of ps) check (or_none ocr) (p ∷ pairs) [] tt
                  (first_fault-none _ _ e).0,
            )
            | inr (x, e) ↦ absurd (ground (arith, e))
          ]

  validate_lines-IsValid :
      (request : Request) (targets : Option (List String)) (raw : Json) (js : List Json)
      (ps : List LineProposal)
      → raw_lines raw ≡ some js
      → validate_lines fl uni config request targets js ≡ returned ps
      → IsValid request targets raw ps
  unfolding validate_lines check_complete
  validate_lines-IsValid request targets raw js ps e h =
      let check = check_set targets request.expected_line_ids in
      elim (Outcome-cases (check_entries request.ocr_texts request.expected_line_ids [] js)) [
        | inr (x, q) ↦ absurd (ground (arith, q))
        | inl (qs, q) ↦
            let (m, u) =
              check_entries-returned request.ocr_texts request.expected_line_ids [] js qs q in
            let (same, kept) =
              check_hyphens-returned request.hyphen_pairs request.ocr_texts request.hyphen_subs
                check qs ps (ground (arith, q)) in
            rw (sym same) (record {
              entries = js;
              listed = e;
              counted = ground (arith, q);
              made = m;
              unique = u;
              complete = all_in→All check (ids_of qs) (ground (arith, q));
              pairs_kept = kept;
            })
      ]

  -- In an answer that is accepted, "lines" is a list of the right length; its entries are objects
  -- that give the proposals one by one and in order, each with the identifier of a line that was
  -- sent and the entry's own text, which holds no line separator and is not blank, or no text on a
  -- line whose source is blank; no identifier comes twice; no line that had to be answered is
  -- missing; and of a hyphen pair with both lines to be answered, both have a text.
  pub validate_llm_response-IsValid :
      (request : Request) (targets : Option (List String)) (raw : Json) (ps : List LineProposal)
      → validate_llm_response fl uni config request targets raw ≡ returned ps
      → IsValid request targets raw ps
  unfolding validate_llm_response
  validate_llm_response-IsValid request targets raw ps h = elim (Option-cases (raw_lines raw)) [
    | inl e ↦ absurd (ground (arith, e))
    | inr (js, e) ↦ validate_lines-IsValid request targets raw js ps e (ground (arith, e))
  ]
