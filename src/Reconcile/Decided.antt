-- ===== src/Reconcile/Decided.antt =====
-- What `_reconcile_one_pair` of core/reconcile.py decides on the two lines of a pair.
use corrigenda.Base.{
  Bool, true, false, ◌||◌, ◌≡◌, ◌≢◌, refl, Option, none, some, String, Text, arith, ◌⊎◌, inl, inr,
  Bool-cases, if◌then◌else◌,
}
use corrigenda.Floats.{Floats, Unicode}
use corrigenda.Manifest.{LineManifest, LineStatus}
use corrigenda.Policies.{GuardConfig}
use corrigenda.Decide.{Traces}
use corrigenda.Hyphenation.{Reconciled, ReconcileOutcome, given_or}
use corrigenda.Hyphenation.Verdict.{classify-reconcile}
use corrigenda.Reconcile.{
  Joined, is_fallback, both_fall_back, both_accept, write_outcome, write_subs, tail_proposal,
  reconciled_pair, pair_outcome, reconcile_one_pair,
}

-- Both lines carry the source text and say so.
pub record BothSource (lm part2 : LineManifest) (j : Joined) : Type 0 where
  pub tail_status : j.tail.status ≡ LineStatus.fallback
  pub head_status : j.head.status ≡ LineStatus.fallback
  pub tail_text : j.tail.corrected_text ≡ some lm.ocr_text
  pub head_text : j.head.corrected_text ≡ some part2.ocr_text
  pub outcome : j.outcome ≡ ReconcileOutcome.fell_back

-- Both lines carry the given texts and say that they are corrected.
pub record BothCorrected (c1 c2 : Text) (j : Joined) : Type 0 where
  pub tail_status : j.tail.status ≡ LineStatus.corrected
  pub head_status : j.head.status ≡ LineStatus.corrected
  pub tail_text : j.tail.corrected_text ≡ some c1
  pub head_text : j.head.corrected_text ≡ some c2
  pub outcome : j.outcome ≢ ReconcileOutcome.fell_back

both_fall_back-BothSource :
    (lm part2 : LineManifest) (ts : Option Traces)
    → BothSource lm part2 (both_fall_back lm part2 ts)
unfolding both_fall_back
both_fall_back-BothSource lm part2 ts = ground arith

write_outcome_lem :
    (o : ReconcileOutcome) (r : Reconciled) (lm part2 : LineManifest) (ts : Option Traces)
    → ((o ≡ ReconcileOutcome.fell_back) × BothSource lm part2 (write_outcome o r lm part2 ts))
      ⊎ ((o ≢ ReconcileOutcome.fell_back)
          × BothCorrected r.text1 r.text2 (write_outcome o r lm part2 ts))
unfolding write_outcome both_accept
write_outcome_lem ReconcileOutcome.fell_back r lm part2 ts =
    inl (refl, both_fall_back-BothSource lm part2 ts)
write_outcome_lem ReconcileOutcome.coherent r lm part2 ts = inr (cc, ground arith)
write_outcome_lem ReconcileOutcome.neutralised r lm part2 ts = inr (cc, ground arith)

BothSource-write_subs :
    (b : Bool) (s : Option Text) (lm part2 : LineManifest) (j : Joined)
    → BothSource lm part2 j
    → BothSource lm part2 (write_subs b s j)
unfolding write_subs
BothSource-write_subs b s lm part2 j h = ground arith

BothCorrected-write_subs :
    (b : Bool) (s : Option Text) (c1 c2 : Text) (j : Joined)
    → BothCorrected c1 c2 j
    → BothCorrected c1 c2 (write_subs b s j)
unfolding write_subs
BothCorrected-write_subs true s c1 c2 j h = record {
  tail_status = h.tail_status;
  head_status = h.head_status;
  tail_text = h.tail_text;
  head_text = h.head_text;
  outcome = h.outcome;
}
BothCorrected-write_subs false s c1 c2 j h = record {
  tail_status = h.tail_status;
  head_status = h.head_status;
  tail_text = h.tail_text;
  head_text = h.head_text;
  outcome = h.outcome;
}

module _ (fl : Floats) (uni : Unicode) (cfg : GuardConfig fl) where
  abbrev pub head_proposal : (String → Option Text) → LineManifest → Text
  head_proposal text_by_id part2 = given_or (text_by_id part2.line_id) part2.ocr_text

  module _ (text_by_id : String → Option Text) (is_forward : Bool) (lm part2 : LineManifest) where
    texts_of_outcome :
        pair_outcome fl uni cfg text_by_id is_forward lm part2 ≢ ReconcileOutcome.fell_back
        → ((reconciled_pair fl uni cfg text_by_id is_forward lm part2).text1
            ≡ tail_proposal fl uni cfg text_by_id lm)
          × ((reconciled_pair fl uni cfg text_by_id is_forward lm part2).text2
              ≡ head_proposal text_by_id part2)
    unfolding pair_outcome reconciled_pair
    texts_of_outcome h =
        (classify-reconcile fl uni cfg lm part2 (tail_proposal fl uni cfg text_by_id lm)
            (head_proposal text_by_id part2)
            (if is_forward then some lm.hyphen_forward_subs_content else none)
            (if is_forward then some lm.hyphen_forward_explicit else none)).1
          h

    -- The two lines of a pair are always decided together: either both carry their source text with
    -- the status FALLBACK and the outcome says so, or both carry the texts proposed for them,
    -- unchanged, with the status CORRECTED and another outcome.
    pub reconcile_one_pair_together :
        (ts : Option Traces)
        → let j = reconcile_one_pair fl uni cfg text_by_id is_forward lm part2 ts in
          BothSource lm part2 j
          ⊎ BothCorrected
              (tail_proposal fl uni cfg text_by_id lm)
              (head_proposal text_by_id part2)
              j
    unfolding reconcile_one_pair
    reconcile_one_pair_together ts =
        elim (Bool-cases (is_fallback lm.status || is_fallback part2.status)) [
          | inl e ↦ rw e (inl (both_fall_back-BothSource lm part2 ts))
          | inr e ↦ rw e (written (write_outcome_lem o r lm part2 ts))
        ]
      where
        o : ReconcileOutcome
        o = pair_outcome fl uni cfg text_by_id is_forward lm part2

        r : Reconciled
        r = reconciled_pair fl uni cfg text_by_id is_forward lm part2

        written :
            ((o ≡ ReconcileOutcome.fell_back) × BothSource lm part2 (write_outcome o r lm part2 ts))
              ⊎ ((o ≢ ReconcileOutcome.fell_back)
                  × BothCorrected r.text1 r.text2 (write_outcome o r lm part2 ts))
            → BothSource lm part2 (write_subs is_forward r.subs (write_outcome o r lm part2 ts))
              ⊎ BothCorrected
                  (tail_proposal fl uni cfg text_by_id lm)
                  (head_proposal text_by_id part2)
                  (write_subs is_forward r.subs (write_outcome o r lm part2 ts))
        written (inl (_, s)) = inl (BothSource-write_subs is_forward r.subs lm part2 _ s)
        written (inr (n, c)) = inr (
            rw (← (texts_of_outcome n).0, ← (texts_of_outcome n).1)
              (BothCorrected-write_subs is_forward r.subs r.text1 r.text2 _ c))

  -- In a chain of three lines whose pairs are reconciled in reading order, when the first pair does
  -- not fall back and the second does, the first line keeps its correction, with the status
  -- CORRECTED, while the line that continues its word is back at its source text.
  pub chain_torn :
      (text_by_id : String → Option Text) (a b c : LineManifest) (ts : Option Traces)
      → let first = reconcile_one_pair fl uni cfg text_by_id false a b ts in
        let second = reconcile_one_pair fl uni cfg text_by_id true first.head c first.traces in
        first.outcome ≢ ReconcileOutcome.fell_back
        → second.outcome ≡ ReconcileOutcome.fell_back
        → (first.tail.status ≡ LineStatus.corrected)
          × (first.tail.corrected_text ≡ some (tail_proposal fl uni cfg text_by_id a))
          × (second.tail.status ≡ LineStatus.fallback)
          × (second.tail.corrected_text ≡ some first.head.ocr_text)
  chain_torn text_by_id a b c ts n f =
      torn (reconcile_one_pair_together text_by_id false a b ts)
        (reconcile_one_pair_together text_by_id true first.head c first.traces)
    where
      first : Joined
      first = reconcile_one_pair fl uni cfg text_by_id false a b ts

      second : Joined
      second = reconcile_one_pair fl uni cfg text_by_id true first.head c first.traces

      torn :
          BothSource a b first
            ⊎ BothCorrected
                (tail_proposal fl uni cfg text_by_id a)
                (head_proposal text_by_id b)
                first
          → BothSource first.head c second
            ⊎ BothCorrected
                (tail_proposal fl uni cfg text_by_id first.head)
                (head_proposal text_by_id c)
                second
          → (first.tail.status ≡ LineStatus.corrected)
            × (first.tail.corrected_text ≡ some (tail_proposal fl uni cfg text_by_id a))
            × (second.tail.status ≡ LineStatus.fallback)
            × (second.tail.corrected_text ≡ some first.head.ocr_text)
      torn (inl s) q = absurd (n s.outcome)
      torn (inr p) (inl s) = (p.tail_status, p.tail_text, s.tail_status, s.tail_text)
      torn (inr p) (inr q) = absurd (q.outcome f)
