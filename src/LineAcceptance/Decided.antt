-- ===== src/LineAcceptance/Decided.antt =====
-- The lines of a chunk that `_apply_line_acceptance` of core/acceptance.py decides.
use corrigenda.Base.{
  ◌≡◌, refl, sym, ap, ◌∙◌, true, false, Bool, Option, none, some, List, [], ◌∷◌, String, str_eq,
  Text, lookup, is_in, inl, inr, Bool-cases, Option-cases, eq_iff, arith,
}
use mathlib.Core.Path.{subst}
use corrigenda.Floats.{Floats}
use corrigenda.Policies.{GuardConfig}
use corrigenda.Manifest.{LineManifest}
use corrigenda.Decide.{Traces, accept, fall_back}
use corrigenda.LineAcceptance.{
  line_at, Partners, take_verdict, decide_line, proposal_for, visit, apply_line_acceptance,
}
use corrigenda.LineAcceptance.Stores.{line_at-put_at}

unfoldable pub has_text : Option Text → Bool
has_text none = false
has_text (some text) = true

-- The page holds a line of this name, and one that is decided.
unfoldable pub is_line : Option LineManifest → Bool
is_line none = false
is_line (some lm) = true

unfoldable pub is_decided_line : Option LineManifest → Bool
unfolding has_text
is_decided_line none = false
is_decided_line (some lm) = has_text lm.corrected_text

abbrev pub is_there : String → List LineManifest → Bool
is_there i lines = is_line (line_at i lines)

abbrev pub is_decided : String → List LineManifest → Bool
is_decided i lines = is_decided_line (line_at i lines)

line_at-id :
    (i : String) (lm : LineManifest) (lines : List LineManifest)
    → line_at i lines ≡ some lm
    → lm.line_id ≡ i
unfolding line_at
line_at-id i lm [] e = absurd (cc)
line_at-id i lm (x ∷ lines) e = ground (arith, eq_iff x.line_id i, line_at-id i lm lines)

module _ (fl : Floats) (config : GuardConfig fl) (partners : Partners)
    (texts : List (String × Text)) where
  -- A decision writes the same line, with a text.
  record Written (lm new : LineManifest) : Type 0 where
    same_id : new.line_id ≡ lm.line_id
    is_written : has_text new.corrected_text ≡ true

  decide_line-Written :
      (lm : LineManifest) (text : Text) (lines : List LineManifest) (traces : Option Traces)
      → Written lm (decide_line fl config partners texts lm text lines traces).0
  unfolding decide_line take_verdict accept fall_back has_text
  decide_line-Written lm text lines traces = record {
    same_id = ground arith;
    is_written = ground arith;
  }

  proposal_for-none :
      (lm : LineManifest) (text : Text)
      → proposal_for fl config partners texts lm ≡ none
      → lookup lm.line_id texts ≡ some text
      → has_text lm.corrected_text ≡ true
  unfolding proposal_for has_text
  proposal_for-none lm text e proposed = ground arith

  -- A line that a visit writes has a text, and the others stay.
  visit-keeps :
      (P : Option LineManifest → Bool)
      → ((new : LineManifest) → has_text new.corrected_text ≡ true → P (some new) ≡ true)
      → (i j : String) (lines : List LineManifest) (traces : Option Traces)
      → P (line_at i lines) ≡ true
      → P (line_at i (visit fl config partners texts j lines traces).0) ≡ true
  unfolding visit
  visit-keeps P holds i j lines traces e = elim (Option-cases (line_at j lines)) [
    | inl absent ↦ rw (absent, visit) e
    | inr (lm, at_j) ↦ elim (Option-cases (proposal_for fl config partners texts lm)) [
      | inl nothing ↦ rw (at_j, nothing, visit) e
      | inr (text, proposed) ↦
          let w = decide_line-Written lm text lines traces in
          let same = w.same_id ∙ line_at-id j lm lines at_j in
          rw (at_j, proposed, visit)
            (ap P (line_at-put_at i j _ lm lines same at_j) ∙ elim (Bool-cases (str_eq j i)) [
              | inl here ↦ rw here (holds _ w.is_written)
              | inr other ↦ rw other e
            ])
    ]
  ]

  visit_decides :
      (i : String) (text : Text) (lines : List LineManifest) (traces : Option Traces)
      → is_there i lines ≡ true
      → lookup i texts ≡ some text
      → is_decided i (visit fl config partners texts i lines traces).0 ≡ true
  unfolding visit is_decided_line is_line
  visit_decides i text lines traces e proposed = elim (Option-cases (line_at i lines)) [
    | inl absent ↦ ground arith
    | inr (lm, at_i) ↦ elim (Option-cases (proposal_for fl config partners texts lm)) [
      | inl nothing ↦
          rw (at_i, nothing, visit, at_i)
            (proposal_for-none lm text nothing
              (ap (λ t. lookup t texts) (line_at-id i lm lines at_i) ∙ proposed))
      | inr (p, proposes) ↦
          let w = decide_line-Written lm p lines traces in
          let same = w.same_id ∙ line_at-id i lm lines at_i in
          rw (at_i, proposes, visit)
            (ap is_decided_line (line_at-put_at i i _ lm lines same at_i)
              ∙ rw ((eq_iff i i).1 refl) w.is_written)
    ]
  ]

  apply-is_decided :
      (i : String) (chunk : List String) (lines : List LineManifest) (traces : Option Traces)
      → is_decided i lines ≡ true
      → is_decided i (apply_line_acceptance fl config partners texts chunk lines traces).0 ≡ true
  unfolding apply_line_acceptance is_decided_line
  apply-is_decided i [] lines traces e = e
  apply-is_decided i (j ∷ chunk) lines traces e =
      apply-is_decided i chunk _ _ (visit-keeps is_decided_line (λ new e'. e') i j lines traces e)

  -- Every line of the chunk that stands on the page and for which the answer holds a text leaves the
  -- acceptance with a text: none stays without one, whatever the guards say of it, and none loses
  -- its text to the visit of a later line.
  pub apply_line_acceptance-is_decided :
      (i : String) (text : Text) (chunk : List String) (lines : List LineManifest)
      (traces : Option Traces)
      → is_in i chunk ≡ true
      → is_there i lines ≡ true
      → lookup i texts ≡ some text
      → is_decided i (apply_line_acceptance fl config partners texts chunk lines traces).0 ≡ true
  unfolding apply_line_acceptance is_in is_line is_decided_line
  apply_line_acceptance-is_decided i text [] lines traces named there proposed = absurd (cc)
  apply_line_acceptance-is_decided i text (j ∷ chunk) lines traces named there proposed =
      elim (Bool-cases (str_eq i j)) [
        | inl here ↦ apply-is_decided i chunk _ _ (
            subst (λ k. is_decided i (visit fl config partners texts k lines traces).0 ≡ true)
              ((eq_iff i j).0 here) (visit_decides i text lines traces there proposed))
        | inr later ↦
            apply_line_acceptance-is_decided i text chunk _ _ (sym (rw later refl) ∙ named)
              (visit-keeps is_line (λ new e'. refl) i j lines traces there) proposed
      ]
