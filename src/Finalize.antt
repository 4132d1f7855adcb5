-- ===== src/Finalize.antt =====
-- core/finalize.py and the document-wide passes of core/acceptance.py that it runs in order: the
-- adjacent lines, the break marks, the loss policy. The decisions follow. Of the loss policy the
-- stances REPORT and STRICT stand here; TokenRealign has the gate that `min_alignment_score` sets.
pub mod Kept
pub mod Decided
pub mod Strict
use Prim.Native.Nat.{◌/◌, ◌%◌}
use corrigenda.Base.{
  ℕ, zero, suc, ◌+◌, Bool, true, false, not, ◌&&◌, ◌||◌, Option, none, some, List, [], ◌∷◌, ◌++◌,
  String, str_eq, Text, codes, words, text_eq, length, ltb, ◌==◌, if◌then◌else◌,
}
use corrigenda.Floats.{Floats, Unicode}
use corrigenda.Policies.{GuardConfig}
use corrigenda.Manifest.{LineManifest, LineRef, PageManifest, line_ref}
use corrigenda.Marks.{preserve_break_char}
use corrigenda.Decide.{Traces, renormalise}
use corrigenda.Hyphenation.{given_or}
use corrigenda.Units.Groups.{set_ref}
use corrigenda.Guards.{SegmentLine, Reverts, check_adjacent_duplicates, check_boundary_migration}
use corrigenda.Acceptance.{
  Pass, adjacency, break_chars, loss_policy, entering, required_by, Document, apply_unit_reverts,
  adjacent_duplicate_pair_atomicity,
}
use corrigenda.Decisions.{LineDecision, derive_decision_set}

unfoldable pub segment_line : LineManifest → SegmentLine
unfolding line_ref given_or
segment_line lm = record {
  ref = line_ref lm;
  source = lm.ocr_text;
  corrected = given_or lm.corrected_text lm.ocr_text;
}

unfoldable pub segment_lines : List LineManifest → List SegmentLine
unfolding segment_line
segment_lines [] = []
segment_lines (lm ∷ lines) = segment_line lm ∷ segment_lines lines

-- `reverts.update(other)`
unfoldable pub update_reverts : Reverts → Reverts → Reverts
unfolding set_ref
update_reverts reverts [] = reverts
update_reverts reverts ((r, reason) ∷ other) = update_reverts (set_ref r reason reverts) other

-- `page.source_file == prev_file`
unfoldable pub same_file : Option String → String → Bool
same_file none file = false
same_file (some f) file = str_eq f file

module _ (fl : Floats) (uni : Unicode) (config : GuardConfig fl) where
  unfoldable pub flush : List SegmentLine → Reverts → Reverts
  unfolding update_reverts check_adjacent_duplicates check_boundary_migration
  flush segment reverts =
      if ltb 1 (length segment)
      then update_reverts (update_reverts reverts (check_adjacent_duplicates fl config segment))
          (check_boundary_migration fl config uni segment)
      else reverts

  -- The loop over the pages: the file before, the segment so far and the reverts so far.
  unfoldable pub adjacency_reverts :
      Option String → List SegmentLine → Reverts → List PageManifest → Reverts
  unfolding flush same_file segment_lines
  adjacency_reverts prev_file segment reverts [] = flush segment reverts
  adjacency_reverts prev_file segment reverts (p ∷ pages) =
      let same = same_file prev_file p.source_file in
      adjacency_reverts (some p.source_file)
        ((if same then segment else []) ++ segment_lines p.lines)
        (if same then reverts else flush segment reverts) pages

  -- `_global_adjacency_pass`, its announcement to the order token aside.
  unfoldable pub global_adjacency_pass : Document → Document
  unfolding adjacency_reverts apply_unit_reverts
  global_adjacency_pass d =
      (apply_unit_reverts (adjacency_reverts none [] [] d.pages) adjacent_duplicate_pair_atomicity
        d).1

-- `lm.corrected_text is not None and lm.corrected_text != lm.ocr_text`
unfoldable pub changed_text : LineManifest → Option Text
changed_text lm = elim lm.corrected_text [
  | none ↦ none
  | some t ↦ if text_eq t lm.ocr_text then none else some t
]

-- `_preserve_break_chars`
module _ (is_alpha : ℕ → Bool) where
  unfoldable pub preserve_line : LineManifest → LineManifest
  unfolding changed_text renormalise preserve_break_char
  preserve_line lm = elim (changed_text lm) [
    | none ↦ lm
    | some t ↦ renormalise lm (preserve_break_char is_alpha lm.ocr_text t)
  ]

  unfoldable pub preserve_lines : List LineManifest → List LineManifest
  unfolding preserve_line
  preserve_lines [] = []
  preserve_lines (lm ∷ lines) = preserve_line lm ∷ preserve_lines lines

  unfoldable pub preserve_pages : List PageManifest → List PageManifest
  unfolding preserve_lines
  preserve_pages [] = []
  preserve_pages (p ∷ pages) = record p { lines = preserve_lines p.lines } ∷ preserve_pages pages

  unfoldable pub preserve_break_chars : Document → Document
  unfolding preserve_pages
  preserve_break_chars d = record d { pages = preserve_pages d.pages }

-- The digits of a count; `n` and one is enough fuel, since each turn divides by ten.
unfoldable pub digits : ℕ → ℕ → Text → Text
digits zero n behind = behind
digits (suc fuel) n behind =
    let front = digits fuel (n / 10) ((b'0' + n % 10) ∷ behind) in
    if ltb n 10 then (b'0' + n) ∷ behind else front

unfoldable pub decimal : ℕ → Text
unfolding digits
decimal n = digits (suc n) n []

abbrev pub format_loss_pair_atomicity : Text
format_loss_pair_atomicity = codes "format_loss_pair_atomicity"

unfoldable pub loss_reason : ℕ → ℕ → Text
unfolding decimal
loss_reason corrected source =
    codes "format_loss: corrected word count "
    ++ (decimal corrected
        ++ (codes " != source Word markup "
            ++ (decimal source
                ++ (0x20
                    ∷ 0x2014
                    ∷ codes " unprojectable without dropping word geometry (LossPolicy strict)"))))

-- Why STRICT rejects a line.
unfoldable pub line_loss : LineManifest → Option Text
unfolding changed_text words loss_reason
line_loss lm = elim lm.word_count [
  | none ↦ none
  | some n ↦ elim (changed_text lm) [
    | none ↦ none
    | some t ↦ if length (words t) == n then none else some (loss_reason (length (words t)) n)
  ]
]

unfoldable pub loss_reverts : List LineManifest → Reverts → Reverts
unfolding line_loss set_ref line_ref
loss_reverts [] reverts = reverts
loss_reverts (lm ∷ lines) reverts =
    loss_reverts lines
      (elim (line_loss lm) [ none ↦ reverts | some reason ↦ set_ref (line_ref lm) reason reverts ])

unfoldable pub page_loss_reverts : List PageManifest → Reverts → Reverts
unfolding loss_reverts
page_loss_reverts [] reverts = reverts
page_loss_reverts (p ∷ pages) reverts = page_loss_reverts pages (loss_reverts p.lines reverts)

-- `_loss_policy_pass`, its announcement aside, for `loss_policy.strict`.
unfoldable pub loss_policy_pass : Bool → Document → Document
unfolding page_loss_reverts apply_unit_reverts
loss_policy_pass strict d =
    if strict
    then (apply_unit_reverts (page_loss_reverts d.pages []) format_loss_pair_atomicity d).1
    else d

-- A pass announces itself to the order token, and runs if it may.
pub record Finalizing : Type 0 where
  pub done : List Pass
  pub document : Document

unfoldable pub run_pass : Pass → (Document → Document) → Finalizing → Option Finalizing
unfolding entering required_by
run_pass step pass f = elim (entering step (required_by step) f.done) [
  | none ↦ none
  | some done ↦ some (record { done = done; document = pass f.document })
]

infixl 5 ◌>>=◌
abbrev pub ◌>>=◌ {ℓ κ} : {A : Type ℓ} {B : Type κ} → Option A → (A → Option B) → Option B
none >>= f = none
some a >>= f = f a

module _ (fl : Floats) (uni : Unicode) (config : GuardConfig fl) (strict : Bool) where
  -- The three passes on a fresh token.
  unfoldable pub run_passes : Document → Option Finalizing
  unfolding run_pass global_adjacency_pass preserve_break_chars loss_policy_pass
  run_passes d = do
    f1 ←
        run_pass Pass.adjacency (global_adjacency_pass fl uni config)
          (record { done = []; document = d })
    f2 ← run_pass Pass.break_chars (preserve_break_chars uni.is_alpha) f1
    run_pass Pass.loss_policy (loss_policy_pass strict) f2

  -- The run's traces are a dictionary here; `none` stands for an empty one.
  unfoldable pub finalize_document : Document → Option (List LineDecision)
  unfolding run_passes derive_decision_set given_or
  finalize_document d = do
    f ← run_passes d
    derive_decision_set f.document.pages (given_or f.document.traces [])
