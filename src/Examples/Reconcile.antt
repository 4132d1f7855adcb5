-- ===== src/Examples/Reconcile.antt =====
-- Examples for Hyphenation, Reconcile and Decide (core/hyphenation.py, core/reconcile.py,
-- core/decide.py).
use corrigenda.Base.{
  true, false, ◌≡◌, ◌≢◌, refl, ◌⊎◌, Option, none, some, [], ◌∷◌, String, Text, codes, str_eq,
  text_eq, is_empty, if◌then◌else◌,
}
use corrigenda.Manifest.{LineManifest, LineRef, LineStatus}
use corrigenda.Decide.{Traces, LineTrace, fall_back}
use corrigenda.Decide.Reasons.{trace_of, fall_back_twice}
use corrigenda.Marks.{ends_with_break_mark}
use corrigenda.Hyphenation.{
  first_word, judge_pair, judge_words, part1_text_migrated, part2_text_migrated,
  part2_boundary_word_diverged, ReconcileOutcome, given_or, reconcile_hyphen_pair,
  classify_reconcile_outcome,
}
use corrigenda.Hyphenation.Verdict.{IsVouched, reconcile_hyphen_pair-IsVouched, classify-reconcile}
use corrigenda.Reconcile.{tail_proposal, pair_outcome, reconcile_one_pair}
use corrigenda.Reconcile.Decided.{
  BothSource, BothCorrected, head_proposal, reconcile_one_pair_together, chain_torn,
}
use corrigenda.Examples.Samples.{fractions, plain, default_guard, opening, middle, closing}

-- A word over three lines.
abbrev line_a : LineManifest
line_a = opening "a" "b" (codes "the intcr-")

abbrev line_b : LineManifest
line_b = middle "b" "a" "c" (codes "natio-")

abbrev line_c : LineManifest
line_c = closing "c" "b" (codes "nal end")

-- The producer mends the first line and overfills the third.
abbrev proposals : String → Option Text
proposals i =
    if str_eq i "a"
    then some (codes "the inter-")
    else if str_eq i "b"
    then some (codes "natio-")
    else some (codes "nal end of one two three four")

reconcile_hyphen_pair-IsVouched_example :
    let r =
      reconcile_hyphen_pair fractions plain default_guard line_a line_b
        (codes "the inter-")
        (codes "natio-")
        none
        none in
    ((r.text1 ≡ line_a.ocr_text) × (r.text2 ≡ line_b.ocr_text) × (r.subs ≡ none))
    ⊎ IsVouched fractions plain default_guard
        (given_or none line_a.hyphen_source_explicit)
        (given_or none line_a.hyphen_subs_content)
        line_a.ocr_text
        line_b.ocr_text
        (codes "the inter-")
        (codes "natio-")
        r
reconcile_hyphen_pair-IsVouched_example =
    reconcile_hyphen_pair-IsVouched fractions plain default_guard line_a line_b (codes "the inter-")
      (codes "natio-") none none

classify-reconcile_example :
    let r =
      reconcile_hyphen_pair fractions plain default_guard line_a line_b
        (codes "the inter-")
        (codes "natio-")
        none
        none in
    let o =
      classify_reconcile_outcome line_a.ocr_text line_b.ocr_text
        (codes "the inter-")
        (codes "natio-")
        r in
    (o ≡ ReconcileOutcome.fell_back
      → (r.text1 ≡ line_a.ocr_text)
        × (r.text2 ≡ line_b.ocr_text)
        × (¬ ((codes "the inter-" ≡ line_a.ocr_text) × (codes "natio-" ≡ line_b.ocr_text))))
    × (o ≢ ReconcileOutcome.fell_back → (r.text1 ≡ codes "the inter-") × (r.text2 ≡ codes "natio-"))
    × (o ≡ ReconcileOutcome.coherent → r.subs ≢ none)
    × (o ≡ ReconcileOutcome.neutralised → r.subs ≡ none)
classify-reconcile_example =
    classify-reconcile fractions plain default_guard line_a line_b (codes "the inter-")
      (codes "natio-") none none

reconcile_one_pair_together_example :
    let j = reconcile_one_pair fractions plain default_guard proposals false line_a line_b none in
    BothSource line_a line_b j
    ⊎ BothCorrected
        (tail_proposal fractions plain default_guard proposals line_a)
        (head_proposal fractions plain default_guard proposals line_b)
        j
reconcile_one_pair_together_example =
    reconcile_one_pair_together fractions plain default_guard proposals false line_a line_b none

abbrev fallen : LineManifest
fallen = record line_a { status = LineStatus.fallback }

-- The first pair is accepted, with no logical word; the second falls back.
first_outcome :
    (reconcile_one_pair fractions plain default_guard proposals false line_a line_b none).outcome
    ≡ ReconcileOutcome.neutralised
unfolding reconcile_one_pair pair_outcome text_eq judge_pair part1_text_migrated part2_text_migrated
    ends_with_break_mark first_word judge_words part2_boundary_word_diverged
first_outcome = refl

first_kept :
    (reconcile_one_pair fractions plain default_guard proposals false line_a line_b none).outcome
    ≢ ReconcileOutcome.fell_back
first_kept = rw first_outcome cc

second_fell :
    (reconcile_one_pair fractions plain default_guard proposals true
      (reconcile_one_pair fractions plain default_guard proposals false line_a line_b none).head
      line_c
      (reconcile_one_pair fractions plain default_guard proposals false line_a line_b
        none).traces).outcome
    ≡ ReconcileOutcome.fell_back
unfolding reconcile_one_pair pair_outcome text_eq judge_pair part1_text_migrated part2_text_migrated
    ends_with_break_mark first_word judge_words part2_boundary_word_diverged
second_fell = refl

chain_torn_example :
    let first =
      reconcile_one_pair fractions plain default_guard proposals false line_a line_b none in
    let second =
      reconcile_one_pair fractions plain default_guard proposals true first.head line_c
        first.traces in
    (first.tail.status ≡ LineStatus.corrected)
    × (first.tail.corrected_text
        ≡ some (tail_proposal fractions plain default_guard proposals line_a))
    × (second.tail.status ≡ LineStatus.fallback)
    × (second.tail.corrected_text ≡ some first.head.ocr_text)
chain_torn_example =
    chain_torn fractions plain default_guard proposals line_a line_b line_c none first_kept
      second_fell

abbrev untouched : LineTrace
untouched = record { projected_text = none; validation_status = none; fallback_reason = none }

abbrev traces : Option Traces
traces = some ((record { page_id = "p"; line_id = "a" }, untouched) ∷ [])

nonempty_reason : is_empty (codes "first") ≡ false
unfolding is_empty
nonempty_reason = refl

fall_back_twice_example :
    let once = fall_back line_a (codes "first") traces in
    let again = fall_back once.0 (codes "second") once.1 in
    (again.0 ≡ once.0) × ((q : LineRef) → trace_of q again.1 ≡ trace_of q once.1)
fall_back_twice_example =
    fall_back_twice line_a (codes "first") (codes "second") traces nonempty_reason
