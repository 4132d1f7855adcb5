-- ===== src/Hyphenation/Verdict.antt =====
-- What `reconcile_hyphen_pair` of core/hyphenation.py lets through, and what its outcome means.
use corrigenda.Base.{
  ◌≤◌, ◌≡◌, refl, Bool, true, false, ◌&&◌, Option, none, some, Text, words, length, text_eq_iff,
  ◌≢◌, arith, ◌⊎◌, inl, inr, Option-cases,
}
use corrigenda.Floats.{Floats, Unicode}
use corrigenda.Manifest.{LineManifest}
use corrigenda.Marks.{ends_with_break_mark, last_word}
use corrigenda.Policies.{GuardConfig}
use corrigenda.Hyphenation.{
  Reconciled, ReconcileOutcome, first_word, declares, joins_to, judge_words, judge_pair,
  reconcile_hyphen_pair, classify_reconcile_outcome, part1_text_migrated, part2_text_migrated,
  part2_boundary_word_diverged, given_or,
}

classify_lem :
    (ocr1 ocr2 c1 c2 : Text) (r : Reconciled)
    → ((r.text1 ≡ ocr1) × (r.text2 ≡ ocr2)) ⊎ ((r.text1 ≡ c1) × (r.text2 ≡ c2))
    → let o = classify_reconcile_outcome ocr1 ocr2 c1 c2 r in
      (o ≡ ReconcileOutcome.fell_back
        → (r.text1 ≡ ocr1) × (r.text2 ≡ ocr2) × (¬ ((c1 ≡ ocr1) × (c2 ≡ ocr2))))
      × (o ≢ ReconcileOutcome.fell_back → (r.text1 ≡ c1) × (r.text2 ≡ c2))
      × (o ≡ ReconcileOutcome.coherent → r.subs ≢ none)
      × (o ≡ ReconcileOutcome.neutralised → r.subs ≡ none)
unfolding classify_reconcile_outcome
classify_lem ocr1 ocr2 c1 c2 r h = ground (
  arith,
  text_eq_iff c1 ocr1,
  text_eq_iff c2 ocr2,
  text_eq_iff r.text1 ocr1,
  text_eq_iff r.text2 ocr2,
)

module _ (fl : Floats) (uni : Unicode) (cfg : GuardConfig fl) where
  -- What an accepted pair of corrections satisfies. `explicit` and `subs` are the source's claim:
  -- whether the break is encoded, and the word that it says the halves make.
  pub record IsVouched (explicit : Bool) (subs : Option Text) (ocr1 ocr2 c1 c2 : Text)
      (r : Reconciled) : Type 0 where
    pub text1 : r.text1 ≡ c1
    pub text2 : r.text2 ≡ c2
    pub keeps_mark : ends_with_break_mark c1 ≡ true
    pub not_migrated : part1_text_migrated fl cfg ocr1 c1 ≡ false
    pub not_collapsed : part2_text_migrated fl cfg ocr2 c2 ≡ false
    pub no_word_gained : length (words c2) ≤ length (words ocr2)
    pub left : Text
    pub right : Text
    pub is_left : last_word (words c1) ≡ some left
    pub is_right : first_word (words c2) ≡ some right
    -- a declared word is the one that the halves make, case folded; else the boundary word stands
    pub joins : (explicit && declares subs) ≡ true → joins_to fl uni left right subs ≡ true
    pub stands :
        (explicit && declares subs) ≡ false
        → part2_boundary_word_diverged fl uni cfg ocr2 c2 ≡ false

  judge_words-eq-some :
      (explicit : Bool) (subs preserved : Option Text) (ocr2 c1 c2 left right : Text)
      (r : Reconciled)
      → judge_words fl uni cfg explicit subs preserved ocr2 c1 c2 left right ≡ some r
      → (r.text1 ≡ c1)
        × (r.text2 ≡ c2)
        × ((explicit && declares subs) ≡ true → joins_to fl uni left right subs ≡ true)
        × ((explicit && declares subs) ≡ false
            → part2_boundary_word_diverged fl uni cfg ocr2 c2 ≡ false)
  unfolding judge_words
  judge_words-eq-some explicit subs preserved ocr2 c1 c2 left right r h = ground arith

  judge_pair-IsVouched :
      (explicit : Bool) (subs preserved : Option Text) (ocr1 ocr2 c1 c2 : Text) (r : Reconciled)
      → judge_pair fl uni cfg explicit subs preserved ocr1 ocr2 c1 c2 ≡ some r
      → IsVouched explicit subs ocr1 ocr2 c1 c2 r
  unfolding judge_pair
  judge_pair-IsVouched explicit subs preserved ocr1 ocr2 c1 c2 r h =
      elim (Option-cases (last_word (words c1))) [
        | inl e ↦ absurd (ground (arith, e))
        | inr (left, el) ↦ elim (Option-cases (first_word (words c2))) [
          | inl e ↦ absurd (ground (arith, e))
          | inr (right, er) ↦
              let w : judge_words fl uni cfg explicit subs preserved ocr2 c1 c2 left right
                  ≡ some r =
                ground arith in
              let f = judge_words-eq-some explicit subs preserved ocr2 c1 c2 left right r w in
              record {
                text1 = f.0;
                text2 = f.1;
                keeps_mark = ground arith;
                not_migrated = ground arith;
                not_collapsed = ground arith;
                no_word_gained = ground arith;
                left = left;
                right = right;
                is_left = el;
                is_right = er;
                joins = f.2;
                stands = f.3;
              }
        ]
      ]

  -- Whatever the two proposals are, reconciling them either returns both source texts with no
  -- logical word, or returns both proposals unchanged and vouches for them: the first keeps its
  -- break mark and has not swallowed text, the second has not collapsed and has gained no word, and
  -- where the source encodes the broken word, the two halves join to it, else the second line's
  -- first word still reads as the source's. The two lines are never decided apart.
  pub reconcile_hyphen_pair-IsVouched :
      (part1 part2 : LineManifest) (c1 c2 : Text) (subs_content : Option (Option Text))
      (source_explicit : Option Bool)
      → let r = reconcile_hyphen_pair fl uni cfg part1 part2 c1 c2 subs_content source_explicit in
        ((r.text1 ≡ part1.ocr_text) × (r.text2 ≡ part2.ocr_text) × (r.subs ≡ none))
        ⊎ IsVouched
            (given_or source_explicit part1.hyphen_source_explicit)
            (given_or subs_content part1.hyphen_subs_content)
            part1.ocr_text
            part2.ocr_text
            c1
            c2
            r
  unfolding reconcile_hyphen_pair
  reconcile_hyphen_pair-IsVouched part1 part2 c1 c2 subs_content source_explicit =
      elim (Option-cases (
        judge_pair fl uni cfg (given_or source_explicit part1.hyphen_source_explicit)
          (given_or subs_content part1.hyphen_subs_content) (given_or subs_content none)
          part1.ocr_text part2.ocr_text c1 c2)) [
            | inl e ↦ inl (rw e (refl, refl, refl))
            | inr (r, e) ↦ inr (rw e (judge_pair-IsVouched _ _ _ _ _ c1 c2 r e))
          ]

  -- What the class of the outcome says of the texts: a pair that fell back holds both source texts,
  -- and proposed something else; any other pair holds both proposals unchanged; and it is coherent
  -- exactly where reconciliation vouches for a logical word.
  pub classify-reconcile :
      (part1 part2 : LineManifest) (c1 c2 : Text) (subs_content : Option (Option Text))
      (source_explicit : Option Bool)
      → let r = reconcile_hyphen_pair fl uni cfg part1 part2 c1 c2 subs_content source_explicit in
        let o = classify_reconcile_outcome part1.ocr_text part2.ocr_text c1 c2 r in
        (o ≡ ReconcileOutcome.fell_back
          → (r.text1 ≡ part1.ocr_text)
            × (r.text2 ≡ part2.ocr_text)
            × (¬ ((c1 ≡ part1.ocr_text) × (c2 ≡ part2.ocr_text))))
        × (o ≢ ReconcileOutcome.fell_back → (r.text1 ≡ c1) × (r.text2 ≡ c2))
        × (o ≡ ReconcileOutcome.coherent → r.subs ≢ none)
        × (o ≡ ReconcileOutcome.neutralised → r.subs ≡ none)
  classify-reconcile part1 part2 c1 c2 subs_content source_explicit =
      elim (reconcile_hyphen_pair-IsVouched part1 part2 c1 c2 subs_content source_explicit) [
        | inl (e1, e2, e3) ↦ classify_lem part1.ocr_text part2.ocr_text c1 c2 _ (inl (e1, e2))
        | inr v ↦ classify_lem part1.ocr_text part2.ocr_text c1 c2 _ (inr (v.text1, v.text2))
      ]
