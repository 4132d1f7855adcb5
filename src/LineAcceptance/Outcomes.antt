-- ===== src/LineAcceptance/Outcomes.antt =====
-- What `_apply_line_acceptance` of core/acceptance.py makes of the lines of a page.
use corrigenda.Base.{
  ◌≡◌, ◌≢◌, ◌⊎◌, refl, sym, ap, ◌∙◌, true, false, Option, none, some, List, [], ◌∷◌, String, str_eq,
  Text, All, lookup, inl, inr, Bool-cases, Option-cases, arith,
}
use mathlib.Core.Path.{subst}
use mathlib.Core.Option.{none-ne-some}
use corrigenda.Floats.{Floats}
use corrigenda.Policies.{GuardConfig}
use corrigenda.Manifest.{LineManifest, LineStatus, LineRef}
use corrigenda.Pairing.{pair_ref, forward_ref}
use corrigenda.Decide.{Traces, accept, fall_back}
use corrigenda.Guards.{AcceptanceResult, check_line}
use corrigenda.Acceptance.Settled.{source_line}
use corrigenda.Reconcile.{is_fallback}
use corrigenda.LineAcceptance.{
  line_at, Partners, lookup_ref, has_fallen, fallen_partner, completes_hyphen, take_verdict,
  line_verdict, decide_line, proposal_for, visit, apply_line_acceptance,
}
use corrigenda.LineAcceptance.Stores.{
  Beside, IsSameLine, put_at-Beside, neighbour_text-Beside, has_fallen-line_at,
}

-- `check_line` answers with the correction that it was given where it accepts.
check_line-accepted :
    (fl : Floats) (config : GuardConfig fl) (source corrected : Text) (prev next : Option Text)
    → (check_line fl config source corrected prev next).accepted ≡ true
    → (check_line fl config source corrected prev next).text ≡ corrected
unfolding check_line
check_line-accepted fl config source corrected prev next e = ground arith

take_verdict-accepted :
    (verdict : AcceptanceResult) (lm : LineManifest) (traces : Option Traces)
    → verdict.accepted ≡ true
    → (take_verdict verdict lm traces).0
      ≡ record lm { corrected_text = some verdict.text; status = LineStatus.corrected }
unfolding take_verdict accept
take_verdict-accepted verdict lm traces e = rw e refl

take_verdict-refused :
    (verdict : AcceptanceResult) (lm : LineManifest) (traces : Option Traces)
    → verdict.accepted ≡ false
    → (take_verdict verdict lm traces).0 ≡ source_line lm
unfolding take_verdict fall_back
take_verdict-refused verdict lm traces e = rw e refl

-- A line that has fallen back holds a text.
abbrev pub IsTexted : LineManifest → Type 0
IsTexted lm = is_fallback lm.status ≡ true → lm.corrected_text ≢ none

module _ (fl : Floats) (config : GuardConfig fl) (partners : Partners)
    (texts : List (String × Text)) (start : List LineManifest) where
  -- The line takes the proposal made for it, which passed the guards beside the page's lines and
  -- keeps the line's break mark, and no partner had fallen back.
  pub record IsAccepted (b a : LineManifest) : Type 0 where
    pub text : Text
    pub was_proposed : lookup b.line_id texts ≡ some text
    pub has_taken : a ≡ record b { corrected_text = some text; status = LineStatus.corrected }
    pub has_passed : (line_verdict fl config partners texts b text start).accepted ≡ true
    pub keeps_mark : completes_hyphen b text ≡ false
    pub no_fallen_partner : fallen_partner b start partners ≡ false

  -- The line is as it was, or was undecided and is put back at its source or takes its proposal.
  abbrev pub Outcome : LineManifest → LineManifest → Type 0
  Outcome b a = (a ≡ b) ⊎ ((b.corrected_text ≡ none) × ((a ≡ source_line b) ⊎ IsAccepted b a))

  abbrev Tracked : LineManifest → LineManifest → Type 0
  Tracked b a = IsTexted b × Outcome b a

  Tracked-IsSameLine : (b a : LineManifest) → Tracked b a → IsSameLine b a
  Tracked-IsSameLine b a (texted, inl same) = record {
    same_id = ap (λ t. t.line_id) same;
    same_source = ap (λ t. t.ocr_text) same;
    still_fallen = λ e. ap (λ t. is_fallback t.status) same ∙ e;
  }
  Tracked-IsSameLine b a (texted, inr (bare, inl back)) = record {
    same_id = ap (λ t. t.line_id) back;
    same_source = ap (λ t. t.ocr_text) back;
    still_fallen = λ e. absurd (texted e bare);
  }
  Tracked-IsSameLine b a (texted, inr (bare, inr took)) = record {
    same_id = ap (λ t. t.line_id) took.has_taken;
    same_source = ap (λ t. t.ocr_text) took.has_taken;
    still_fallen = λ e. absurd (texted e bare);
  }

  module _ (lines : List LineManifest) (tracked : Beside Tracked start lines) where
    lookup-fallen :
        (r : Option LineRef) (page_id : String)
        → has_fallen (lookup_ref r page_id start partners) ≡ true
        → has_fallen (lookup_ref r page_id lines partners) ≡ true
    unfolding lookup_ref
    lookup-fallen none page_id e = e
    lookup-fallen (some r) page_id e = elim (Bool-cases (str_eq r.page_id page_id)) [
      | inl here ↦ rw here (
          has_fallen-line_at Tracked Tracked-IsSameLine r.line_id start lines tracked
            (sym (rw here refl) ∙ e))
      | inr other ↦ rw other (sym (rw other refl) ∙ e)
    ]

    fallen_partner-start :
        (b : LineManifest)
        → fallen_partner b lines partners ≡ false
        → fallen_partner b start partners ≡ false
    unfolding fallen_partner
    fallen_partner-start b e =
        ground
          (arith, lookup-fallen (pair_ref b) b.page_id, lookup-fallen (forward_ref b) b.page_id)

    line_verdict-start :
        (b : LineManifest) (text : Text)
        → line_verdict fl config partners texts b text lines
          ≡ line_verdict fl config partners texts b text start
    unfolding line_verdict
    line_verdict-start b text = λ i.
        check_line fl config b.ocr_text text
          (neighbour_text-Beside Tracked Tracked-IsSameLine b.prev_line_id start lines tracked i)
          (neighbour_text-Beside Tracked Tracked-IsSameLine b.next_line_id start lines tracked i)

    verdict_text :
        (b : LineManifest) (text : Text)
        → (line_verdict fl config partners texts b text lines).accepted ≡ true
        → (line_verdict fl config partners texts b text lines).text ≡ text
    unfolding line_verdict
    verdict_text b text passed = check_line-accepted fl config b.ocr_text text _ _ passed

    proposal_for-some :
        (lm : LineManifest) (text : Text)
        → proposal_for fl config partners texts lm ≡ some text
        → (lm.corrected_text ≡ none) × (lookup lm.line_id texts ≡ some text)
    unfolding proposal_for
    proposal_for-some lm text e = ground arith

    still_bare : (b lm : LineManifest) → Outcome b lm → lm.corrected_text ≡ none → lm ≡ b
    still_bare b lm (inl same) bare = same
    still_bare b lm (inr (was_bare, inl back)) bare =
        absurd (none-ne-some _ (sym bare ∙ ap (λ t. t.corrected_text) back))
    still_bare b lm (inr (was_bare, inr took)) bare =
        absurd (none-ne-some _ (sym bare ∙ ap (λ t. t.corrected_text) took.has_taken))

    decide_line-Outcome :
        (b : LineManifest) (text : Text) (traces : Option Traces)
        → b.corrected_text ≡ none
        → lookup b.line_id texts ≡ some text
        → Outcome b (decide_line fl config partners texts b text lines traces).0
    unfolding decide_line fall_back
    decide_line-Outcome b text traces bare proposed = elim (Bool-cases (completes_hyphen b text)) [
      | inl completes ↦ inr (bare, inl (rw (completes, decide_line, fall_back) refl))
      | inr marked ↦ elim (Bool-cases (fallen_partner b lines partners)) [
        | inl fell ↦ inr (bare, inl (rw (marked, fell, decide_line, fall_back) refl))
        | inr stands ↦
            elim (Bool-cases (line_verdict fl config partners texts b text lines).accepted) [
              | inl passed ↦ inr (
                bare,
                inr (record {
                  text = text;
                  was_proposed = proposed;
                  has_taken =
                      rw (marked, stands, decide_line)
                        (take_verdict-accepted (line_verdict fl config partners texts b text lines)
                            b traces passed
                          ∙ ap
                              (λ t. record b {
                                corrected_text = some t;
                                status = LineStatus.corrected;
                              })
                              (verdict_text b text passed));
                  has_passed = ap (λ v. v.accepted) (sym (line_verdict-start b text)) ∙ passed;
                  keeps_mark = marked;
                  no_fallen_partner = fallen_partner-start b stands;
                }),
              )
              | inr refused ↦ inr (
                bare,
                inl (
                    rw (marked, stands, decide_line)
                      (take_verdict-refused (line_verdict fl config partners texts b text lines) b
                        traces refused)),
              )
            ]
      ]
    ]

    advance :
        (b lm : LineManifest) (text : Text) (traces : Option Traces)
        → Outcome b lm
        → proposal_for fl config partners texts lm ≡ some text
        → Outcome b (decide_line fl config partners texts lm text lines traces).0
    advance b lm text traces rel proposed =
        let given = proposal_for-some lm text proposed in
        let same = still_bare b lm rel given.0 in
        subst (λ l. Outcome b (decide_line fl config partners texts l text lines traces).0)
          (sym same)
          (decide_line-Outcome b text traces (ap (λ t. t.corrected_text) (sym same) ∙ given.0)
            (ap (λ t. lookup t.line_id texts) (sym same) ∙ given.1))

    visit-Tracked :
        (i : String) (traces : Option Traces)
        → Beside Tracked start (visit fl config partners texts i lines traces).0
    unfolding visit
    visit-Tracked i traces = elim (Option-cases (line_at i lines)) [
      | inl absent ↦ rw (absent, visit) tracked
      | inr (lm, at_i) ↦ elim (Option-cases (proposal_for fl config partners texts lm)) [
        | inl nothing ↦ rw (at_i, nothing, visit) tracked
        | inr (text, proposed) ↦
            rw (at_i, proposed, visit)
              (put_at-Beside Tracked Tracked-IsSameLine i _ lm start lines tracked at_i
                (λ b found rel. (rel.0, advance b lm text traces rel.1 proposed)))
      ]
    ]

  apply-Tracked :
      (chunk : List String) (lines : List LineManifest) (traces : Option Traces)
      → Beside Tracked start lines
      → Beside Tracked start (apply_line_acceptance fl config partners texts chunk lines traces).0
  unfolding apply_line_acceptance
  apply-Tracked [] lines traces tracked = tracked
  apply-Tracked (i ∷ chunk) lines traces tracked =
      let after = visit fl config partners texts i lines traces in
      apply-Tracked chunk after.0 after.1 (visit-Tracked lines tracked i traces)

  Tracked-refl : (lines : List LineManifest) → All IsTexted lines → Beside Tracked lines lines
  Tracked-refl [] texted = tt
  Tracked-refl (lm ∷ lines) texted = ((texted.0, inl refl), Tracked-refl lines texted.1)

  Tracked-Outcome :
      (before after : List LineManifest) → Beside Tracked before after → Beside Outcome before after
  Tracked-Outcome [] [] tracked = tt
  Tracked-Outcome [] (a ∷ after) tracked = tracked
  Tracked-Outcome (b ∷ before) [] tracked = tracked
  Tracked-Outcome (b ∷ before) (a ∷ after) tracked =
      (tracked.0.1, Tracked-Outcome before after tracked.1)

-- The acceptance of a chunk's lines, on a page where each line that fell back holds a text: each line
-- of the page stays as it was, or it was undecided and is put back at its source, or it takes the
-- proposal made for it, which passed the guards beside its neighbours' source texts, does not drop
-- the line's break mark, and comes with no hyphen partner that had fallen back.
pub apply_line_acceptance-Outcome :
    (fl : Floats) (config : GuardConfig fl) (partners : Partners) (texts : List (String × Text))
    (chunk : List String) (lines : List LineManifest) (traces : Option Traces)
    → All IsTexted lines
    → Beside
        (Outcome fl config partners texts lines)
        lines
        (apply_line_acceptance fl config partners texts chunk lines traces).0
apply_line_acceptance-Outcome fl config partners texts chunk lines traces texted =
    Tracked-Outcome fl config partners texts lines lines _ (
      apply-Tracked fl config partners texts lines chunk lines traces
        (Tracked-refl fl config partners texts lines lines texted))
