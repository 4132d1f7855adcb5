-- ===== src/Reconcile.antt =====
-- core/reconcile.py: what one pair's reconciliation writes on its two lines, and the pairs of a
-- unit walked in reading order. Texts and lines are found by functions that stand for the
-- dictionaries.
pub mod Decided
use corrigenda.Base.{
  ℕ, Bool, true, false, ◌||◌, Option, none, some, List, [], ◌∷◌, String, Text, codes, if◌then◌else◌,
}
use corrigenda.Floats.{Floats, Unicode}
use corrigenda.Manifest.{HyphenRole, LineManifest, LineStatus, LineRef, PageManifest, ref_eq}
use corrigenda.Policies.{GuardConfig}
use corrigenda.Decide.{Traces, accept, fall_back}
use corrigenda.Pairing.{or_text}
use corrigenda.Hyphenation.{
  Reconciled, ReconcileOutcome, given_or, reconcile_hyphen_pair, classify_reconcile_outcome,
}

-- The two lines after their pair is decided, the class of the outcome and the traces.
pub record Joined : Type 0 where
  pub tail : LineManifest
  pub head : LineManifest
  pub outcome : ReconcileOutcome
  pub traces : Option Traces

unfoldable pub is_fallback : LineStatus → Bool
is_fallback LineStatus.fallback = true
is_fallback LineStatus.pending = false
is_fallback LineStatus.corrected = false
is_fallback LineStatus.failed = false

abbrev pub pair_fallback : Text
pair_fallback = codes "hyphen_pair_fallback"

-- Both lines fall back, one after the other, on the same traces.
unfoldable pub both_fall_back : LineManifest → LineManifest → Option Traces → Joined
unfolding fall_back
both_fall_back lm part2 traces =
    let (lm', traces1) = fall_back lm pair_fallback traces in
    let (part2', traces2) = fall_back part2 pair_fallback traces1 in
    record { tail = lm'; head = part2'; outcome = ReconcileOutcome.fell_back; traces = traces2 }

unfoldable pub both_accept :
    ReconcileOutcome → Reconciled → LineManifest → LineManifest → Option Traces → Joined
unfolding accept
both_accept o r lm part2 traces =
    let (lm', traces1) = accept lm r.text1 traces in
    let (part2', traces2) = accept part2 r.text2 traces1 in
    record { tail = lm'; head = part2'; outcome = o; traces = traces2 }

-- The decision that follows the outcome.
unfoldable pub write_outcome :
    ReconcileOutcome → Reconciled → LineManifest → LineManifest → Option Traces → Joined
unfolding both_fall_back both_accept
write_outcome ReconcileOutcome.fell_back r lm part2 traces = both_fall_back lm part2 traces
write_outcome ReconcileOutcome.coherent r lm part2 traces =
    both_accept ReconcileOutcome.coherent r lm part2 traces
write_outcome ReconcileOutcome.neutralised r lm part2 traces =
    both_accept ReconcileOutcome.neutralised r lm part2 traces

-- The logical word that the pair settled on, noted on both lines.
unfoldable pub write_subs : Bool → Option Text → Joined → Joined
write_subs true subs j = record j {
  tail = record (j.tail) { hyphen_forward_subs_content = subs };
  head = record (j.head) { hyphen_subs_content = subs };
}
write_subs false subs j = record j {
  tail = record (j.tail) { hyphen_subs_content = subs };
  head = record (j.head) { hyphen_subs_content = subs };
}

module _ (fl : Floats) (uni : Unicode) (cfg : GuardConfig fl) where
  -- `lm.corrected_text or text_by_id.get(lm.line_id, lm.ocr_text)`
  unfoldable pub tail_proposal : (String → Option Text) → LineManifest → Text
  unfolding or_text given_or
  tail_proposal text_by_id lm =
      given_or (or_text lm.corrected_text none) (given_or (text_by_id lm.line_id) lm.ocr_text)

  unfoldable pub reconciled_pair :
      (String → Option Text) → Bool → LineManifest → LineManifest → Reconciled
  unfolding tail_proposal given_or reconcile_hyphen_pair
  reconciled_pair text_by_id is_forward lm part2 =
      reconcile_hyphen_pair fl uni cfg lm part2 (tail_proposal text_by_id lm)
        (given_or (text_by_id part2.line_id) part2.ocr_text)
        (if is_forward then some lm.hyphen_forward_subs_content else none)
        (if is_forward then some lm.hyphen_forward_explicit else none)

  unfoldable pub pair_outcome :
      (String → Option Text) → Bool → LineManifest → LineManifest → ReconcileOutcome
  unfolding reconciled_pair tail_proposal given_or classify_reconcile_outcome
  pair_outcome text_by_id is_forward lm part2 =
      classify_reconcile_outcome lm.ocr_text part2.ocr_text (tail_proposal text_by_id lm)
        (given_or (text_by_id part2.line_id) part2.ocr_text)
        (reconciled_pair text_by_id is_forward lm part2)

  unfoldable pub reconcile_one_pair :
      (String → Option Text) → Bool → LineManifest → LineManifest → Option Traces → Joined
  unfolding is_fallback both_fall_back write_outcome write_subs
  reconcile_one_pair text_by_id is_forward lm part2 traces =
      if is_fallback lm.status || is_fallback part2.status
      then both_fall_back lm part2 traces
      else write_subs is_forward (reconciled_pair text_by_id is_forward lm part2).subs (
          write_outcome (pair_outcome text_by_id is_forward lm part2)
            (reconciled_pair text_by_id is_forward lm part2) lm part2 traces)
