-- ===== src/TokenRealign/Gated.antt =====
-- The gate of core/acceptance.py (TOKEN_REALIGN) as a whole.
use mathlib.Core.Path.{subst}
use corrigenda.Base.{
  ℕ, ◌*◌, ◌≤◌, ◌<◌, ◌≡◌, ◌⊎◌, refl, sym, ap, ◌∙◌, inl, inr, true, false, Option, none, some, List,
  [], ◌∷◌, Text, words, text_eq_refl, length, All, Bool-cases, Option-cases, if◌then◌else◌, arith,
}
use corrigenda.Manifest.{LineManifest, LineRef, line_ref, ref_eq}
use corrigenda.Units.Groups.{at_ref}
use corrigenda.Units.Dict.{ref_eq→≡, IsApart}
use corrigenda.Guards.{Reverts, is_flagged}
use corrigenda.Alignment.{Scale, TokenAlignment}
use corrigenda.Acceptance.{Document, document_lines, apply_unit_reverts}
use corrigenda.Acceptance.Settled.{source_line, settled, map_lines, map_pages}
use corrigenda.Acceptance.Atomic.{
  is_flagged-some, some-is_flagged, none_flagged, apply_unit_reverts-IsAtomic,
}
use corrigenda.Finalize.{changed_text}
use corrigenda.Finalize.Decided.{document_lines-map_pages}
use corrigenda.TokenRealign.{
  Gate, SidecarEntry, Evidence, sidecar_entry, sidecar_entries, refusal_of, line_alignment,
  line_refusal, empty_gate, gate_result, token_realign, token_realign_pair_atomicity,
}
use corrigenda.TokenRealign.Gathered.{IsJudged, gate_lines-Gathers}

-- An entry of the sidecar holds this change of this line.
abbrev pub Keeps : LineRef → Text → Text → List SidecarEntry → Type 0
Keeps r source corrected [] = ⊥
Keeps r source corrected (e ∷ entries) =
    ((e.ref ≡ r) × (e.source_text ≡ source) × (e.corrected_text ≡ corrected))
    ⊎ Keeps r source corrected entries

sidecar_entry-holds :
    (r : LineRef) (reason source corrected : Text) (evidence : Option Evidence)
    → let e = sidecar_entry r reason (source, corrected) evidence in
      (e.ref ≡ r) × (e.source_text ≡ source) × (e.corrected_text ≡ corrected)
unfolding sidecar_entry
sidecar_entry-holds r reason source corrected none = (refl, refl, refl)
sidecar_entry-holds r reason source corrected (some evidence) = (refl, refl, refl)

is_flagged-later :
    (q r : LineRef) (reason : Text) (reverts : Reverts)
    → ref_eq q r ≡ false
    → is_flagged r ((q, reason) ∷ reverts) ≡ true
    → is_flagged r reverts ≡ true
unfolding is_flagged at_ref
is_flagged-later q r reason reverts other e = ground arith

sidecar_entries-Keeps :
    (g : Gate) (reverted : Reverts) (r : LineRef) (source corrected : Text)
    → is_flagged r reverted ≡ true
    → at_ref r g.snapshots ≡ some (source, corrected)
    → Keeps r source corrected (sidecar_entries g reverted)
unfolding sidecar_entries
sidecar_entries-Keeps g [] r source corrected flagged shot = absurd (none_flagged r flagged)
sidecar_entries-Keeps g ((q, reason) ∷ reverted) r source corrected flagged shot =
    elim (Bool-cases (ref_eq q r)) [
      | inl here ↦
          let same = ref_eq→≡ q r here in
          let at_q : at_ref q g.snapshots ≡ some (source, corrected) =
            ap (λ k. at_ref k g.snapshots) same ∙ shot in
          let holds = sidecar_entry-holds q reason source corrected (at_ref q g.evidence) in
          rw (at_q, sidecar_entries) (inl (holds.0 ∙ same, holds.1, holds.2))
      | inr other ↦
          let later =
            sidecar_entries-Keeps g reverted r source corrected
              (is_flagged-later q r reason reverted other flagged) shot in
          elim (Option-cases (at_ref q g.snapshots)) [
            | inl nothing ↦ rw (nothing, sidecar_entries) later
            | inr (kept, there) ↦ rw (there, sidecar_entries) (inr later)
          ]
    ]

module _ (scale : Scale) (two_places : ℕ × ℕ → Text) (threshold : ℕ) where
  -- The change of the line is aligned with its source without a moved word, and if it has another
  -- number of tokens, then with the score asked for.
  abbrev pub IsConfident : LineManifest → Type 0
  IsConfident lm =
      (t : Text) (al : TokenAlignment)
      → changed_text lm ≡ some t
      → line_alignment scale two_places threshold lm t ≡ some al
      → (al.move_suspected ≡ false)
        × ((length (words t) ≡ length (words lm.ocr_text)) ⊎ (threshold * al.score.1 ≤ al.score.0))

  refusal_of-none :
      (n m : ℕ) (al : TokenAlignment)
      → refusal_of scale two_places threshold n m al ≡ none
      → (al.move_suspected ≡ false) × ((m ≡ n) ⊎ (threshold * al.score.1 ≤ al.score.0))
  unfolding refusal_of
  refusal_of-none n m al e = ground arith

  source_line-IsConfident : (lm : LineManifest) → IsConfident (source_line lm)
  unfolding changed_text
  source_line-IsConfident lm t al changed found =
      let same : changed_text (source_line lm) ≡ none =
        rw (text_eq_refl lm.ocr_text, changed_text) in
      absurd (cc)

  IsJudged-IsConfident :
      (g : Gate) (lm : LineManifest)
      → is_flagged (line_ref lm) g.reverts ≡ false
      → IsJudged scale two_places threshold g lm
      → IsConfident lm
  unfolding line_refusal
  IsJudged-IsConfident g lm free j t al changed found = elim (j.caught t al changed found) [
    | inl fine ↦ refusal_of-none (length (words lm.ocr_text)) (length (words t)) al fine
    | inr flagged ↦ absurd (cc)
  ]

  settled_one :
      (g : Gate) (all : Reverts) (lm : LineManifest)
      → ((r : LineRef) → is_flagged r g.reverts ≡ true → is_flagged r all ≡ true)
      → IsJudged scale two_places threshold g lm
      → IsConfident (settled all lm)
  unfolding settled
  settled_one g all lm more j = elim (Bool-cases (is_flagged (line_ref lm) all)) [
    | inl back ↦
        subst (λ b. IsConfident (if b then source_line lm else lm)) (sym back)
          (source_line-IsConfident lm)
    | inr stays ↦
        subst (λ b. IsConfident (if b then source_line lm else lm)) (sym stays)
          (elim (Bool-cases (is_flagged (line_ref lm) g.reverts)) [
            | inl flagged ↦ let gone = more (line_ref lm) flagged in absurd (cc)
            | inr free ↦ IsJudged-IsConfident g lm free j
          ])
  ]

  settled-IsConfident :
      (g : Gate) (all : Reverts) (lines : List LineManifest)
      → ((r : LineRef) → is_flagged r g.reverts ≡ true → is_flagged r all ≡ true)
      → All (IsJudged scale two_places threshold g) lines
      → All IsConfident (map_lines (settled all) lines)
  unfolding map_lines
  settled-IsConfident g all [] more judged = tt
  settled-IsConfident g all (lm ∷ lines) more (j, js) =
      (settled_one g all lm more j, settled-IsConfident g all lines more js)

  -- A line of the map that had a change has this change in the sidecar.
  abbrev pub IsPreserved : Reverts → List SidecarEntry → LineManifest → Type 0
  IsPreserved reverted sidecar lm =
      is_flagged (line_ref lm) reverted ≡ true
      → (t : Text) → changed_text lm ≡ some t
      → Keeps (line_ref lm) lm.ocr_text t sidecar

  judged-IsPreserved :
      (g : Gate) (reverted : Reverts) (lines : List LineManifest)
      → All (IsJudged scale two_places threshold g) lines
      → All (IsPreserved reverted (sidecar_entries g reverted)) lines
  judged-IsPreserved g reverted [] judged = tt
  judged-IsPreserved g reverted (lm ∷ lines) (j, js) = (
    (λ flagged t changed.
        sidecar_entries-Keeps g reverted (line_ref lm) lm.ocr_text t flagged (j.kept t changed)),
    judged-IsPreserved g reverted lines js,
  )

  -- What the gate makes of a document: the document after it, and the sidecar.
  pub record IsGated (d : Document) (result : Document × List SidecarEntry) : Type 0 where
    pub reverted : Reverts
    pub settles : result.0.pages ≡ map_pages (settled reverted) d.pages
    pub confident : All IsConfident (document_lines result.0.pages)
    pub preserved : All (IsPreserved reverted result.1) (document_lines d.pages)

  gathered-IsGated :
      (d : Document) (g : Gate)
      → All (IsJudged scale two_places threshold g) (document_lines d.pages)
      → IsGated d (gate_result g d)
  unfolding gate_result
  gathered-IsGated d g judged =
      let atomic = apply_unit_reverts-IsAtomic g.reverts token_realign_pair_atomicity d in
      let all = (apply_unit_reverts g.reverts token_realign_pair_atomicity d).0 in
      let lines =
        ap document_lines atomic.settles ∙ document_lines-map_pages (settled all) d.pages in
      record {
        reverted = all;
        settles = atomic.settles;
        confident = rw lines (
            settled-IsConfident g all (document_lines d.pages)
              (λ r h.
                let (x, there) = is_flagged-some r g.reverts h in
                some-is_flagged r all x (atomic.own r x there))
              judged);
        preserved = judged-IsPreserved g all (document_lines d.pages) judged;
      }

  -- On a document whose lines have references of their own, and with a tolerance that is not 0, the
  -- gate has a result. In it each line is as it was or, if its reference is among the reverts, at its
  -- source; a change that is left is aligned with its source without a suspected move, and with the
  -- score asked for if it has another number of tokens; and a line among the reverts that had a change,
  -- flagged or pulled with its hyphen unit, has an entry in the sidecar with its source text and its
  -- change: no correction is lost.
  pub token_realign-IsGated :
      (d : Document)
      → 0 < scale.tolerance
      → IsApart (document_lines d.pages)
      → (result : Document × List SidecarEntry) × (token_realign scale two_places threshold d
          ≡ some result)
        × IsGated d result
  unfolding token_realign
  token_realign-IsGated d positive apart =
      let lines = document_lines d.pages in
      let gathers = gate_lines-Gathers scale two_places threshold lines empty_gate positive apart in
      (
        gate_result gathers.result d,
        rw (gathers.is_result, token_realign) refl,
        gathered-IsGated d gathers.result gathers.judged,
      )
