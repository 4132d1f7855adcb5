-- ===== src/TokenRealign.antt =====
-- The stance TOKEN_REALIGN of `_loss_policy_pass` of core/acceptance.py, with `_sidecar_entries`: a
-- correction that cannot be aligned onto its source is set aside, with its hyphen unit. A score and
-- the threshold are numbers of units, as in Alignment; how `:.2f` writes them is a parameter.
pub mod Gathered
pub mod Gated
use corrigenda.Base.{
  ℕ, ◌*◌, Bool, true, false, not, ◌&&◌, Option, none, some, List, [], ◌∷◌, ◌++◌, Text, codes, words,
  length, ltb, ◌==◌, if◌then◌else◌,
}
use corrigenda.Manifest.{LineManifest, LineRef, line_ref}
use corrigenda.Units.Groups.{at_ref, set_ref}
use corrigenda.Guards.{Reverts}
use corrigenda.Alignment.{Scale, TokenAlignment, align_tokens, char_similarity}
use corrigenda.Acceptance.{Document, document_lines, apply_unit_reverts}
use corrigenda.Finalize.{changed_text, loss_policy_pass}

-- core/schemas/report.py
pub record SidecarEntry : Type 0 where
  pub ref : LineRef
  pub source_text : Text
  pub corrected_text : Text
  pub reason : Text
  pub alignment_score : Option (ℕ × ℕ)
  pub move_suspected : Bool

-- What a refusal is put down to: the score, and whether a word may have moved.
pub record Evidence : Type 0 where
  pub score : ℕ × ℕ
  pub moved : Bool

-- `gate_reverts`, `evidence` and `snapshots`
pub record Gate : Type 0 where
  pub reverts : Reverts
  pub evidence : List (LineRef × Evidence)
  pub snapshots : List (LineRef × (Text × Text))

-- " — correction preserved in sidecar"
abbrev preserved : Text
preserved = 0x20 ∷ 0x2014 ∷ codes " correction preserved in sidecar"

abbrev pub moved_reason : Text
moved_reason = codes "token_realign: suspected word reorder" ++ preserved

abbrev pub token_realign_pair_atomicity : Text
token_realign_pair_atomicity = codes "token_realign_pair_atomicity"

-- What the gate has of a line: its reason and its evidence, where it refuses the correction.
abbrev pub Refusal : Type 0
Refusal = Text × Evidence

unfoldable pub note_refusal : LineRef → Option Refusal → Gate → Gate
unfolding set_ref
note_refusal r none g = g
note_refusal r (some (reason, evidence)) g = record g {
  reverts = set_ref r reason g.reverts;
  evidence = set_ref r evidence g.evidence;
}

unfoldable pub note_line : LineManifest → Text → Option Refusal → Gate → Gate
unfolding note_refusal line_ref set_ref
note_line lm t refusal g =
    note_refusal (line_ref lm) refusal
      (record g { snapshots = set_ref (line_ref lm) (lm.ocr_text, t) g.snapshots })

unfoldable pub sidecar_entry : LineRef → Text → Text × Text → Option Evidence → SidecarEntry
sidecar_entry r reason (source, corrected) none = record {
  ref = r;
  source_text = source;
  corrected_text = corrected;
  reason = reason;
  alignment_score = none;
  move_suspected = false;
}
sidecar_entry r reason (source, corrected) (some evidence) = record {
  ref = r;
  source_text = source;
  corrected_text = corrected;
  reason = reason;
  alignment_score = some evidence.score;
  move_suspected = evidence.moved;
}

-- `_sidecar_entries`
unfoldable pub sidecar_entries : Gate → Reverts → List SidecarEntry
unfolding at_ref sidecar_entry
sidecar_entries g [] = []
sidecar_entries g ((r, reason) ∷ reverted) =
    let rest = sidecar_entries g reverted in
    elim (at_ref r g.snapshots) [
      | none ↦ rest
      | some snapshot ↦ sidecar_entry r reason snapshot (at_ref r g.evidence) ∷ rest
    ]

abbrev pub empty_gate : Gate
empty_gate = record { reverts = []; evidence = []; snapshots = [] }

-- The reverts of the gate, and the sidecar of all that they revert.
unfoldable pub gate_result : Gate → Document → Document × List SidecarEntry
unfolding apply_unit_reverts sidecar_entries
gate_result g d =
    let reverted = apply_unit_reverts g.reverts token_realign_pair_atomicity d in
    (reverted.1, sidecar_entries g reverted.0)

module _ (scale : Scale) (two_places : ℕ × ℕ → Text) (threshold : ℕ) where
  unfoldable pub score_reason : ℕ × ℕ → Text
  score_reason score =
      codes "token_realign: alignment score "
      ++ (two_places score ++ (codes " < " ++ (two_places (threshold, 1) ++ preserved)))

  -- Why the gate refuses a correction of so many tokens of a source of so many.
  unfoldable pub refusal_of : ℕ → ℕ → TokenAlignment → Option Refusal
  unfolding score_reason
  refusal_of n m al =
      if al.move_suspected
      then some (moved_reason, record { score = al.score; moved = true })
      else if not (m == n) && ltb al.score.0 (threshold * al.score.1)
      then some (score_reason al.score, record { score = al.score; moved = false })
      else none

  -- The alignment of a line's source with its correction.
  unfoldable pub line_alignment : LineManifest → Text → Option TokenAlignment
  unfolding align_tokens char_similarity words
  line_alignment lm t =
      align_tokens scale (char_similarity scale.one) (words lm.ocr_text) (words t) none

  unfoldable pub line_refusal : LineManifest → Text → TokenAlignment → Option Refusal
  unfolding refusal_of words
  line_refusal lm t al = refusal_of (length (words lm.ocr_text)) (length (words t)) al

  unfoldable pub gate_line : LineManifest → Gate → Option Gate
  unfolding changed_text line_alignment line_refusal note_line
  gate_line lm g = elim (changed_text lm) [
    | none ↦ some g
    | some t ↦ elim (line_alignment lm t) [
      | none ↦ none
      | some al ↦ some (note_line lm t (line_refusal lm t al) g)
    ]
  ]

  unfoldable pub gate_lines : List LineManifest → Gate → Option Gate
  unfolding gate_line
  gate_lines [] g = some g
  gate_lines (lm ∷ lines) g = elim (gate_line lm g) [ none ↦ none | some g1 ↦ gate_lines lines g1 ]

  -- `none` only where an alignment is not found.
  unfoldable pub token_realign : Document → Option (Document × List SidecarEntry)
  unfolding gate_lines gate_result document_lines
  token_realign d = elim (gate_lines (document_lines d.pages) empty_gate) [
    | none ↦ none
    | some g ↦ some (gate_result g d)
  ]

  -- `_loss_policy_pass` with a threshold, its announcement aside: `strict` wins over it.
  unfoldable pub loss_gate : Bool → Document → Option (Document × List SidecarEntry)
  unfolding loss_policy_pass token_realign
  loss_gate strict d = if strict then some (loss_policy_pass true d, []) else token_realign d
