-- ===== src/TokenRealign/Gathered.antt =====
-- What the gate of core/acceptance.py (TOKEN_REALIGN) has gathered of each line of a document.
use mathlib.Core.Path.{subst}
use mathlib.Core.Option.{some-injective}
use corrigenda.Base.{
  ℕ, ◌<◌, ◌≡◌, ◌⊎◌, refl, sym, ap, ◌∙◌, inl, inr, true, false, Option, none, some, List, [], ◌∷◌,
  Text, words, All, Option-cases,
}
use corrigenda.Manifest.{LineManifest, LineRef, line_ref, ref_eq}
use corrigenda.Units.Groups.{at_ref, set_ref}
use corrigenda.Units.Dict.{HasOtherRef, IsApart, ref_eq_refl, at_ref-set_ref}
use corrigenda.Guards.{Reverts, is_flagged}
use corrigenda.Acceptance.Atomic.{some-is_flagged}
use corrigenda.Alignment.{Scale, TokenAlignment, char_similarity}
use corrigenda.Alignment.Best.{align_tokens-Reads}
use corrigenda.Finalize.{changed_text}
use corrigenda.TokenRealign.{
  Gate, Refusal, note_refusal, note_line, line_alignment, line_refusal, gate_line, gate_lines,
}

set_same {ℓ} :
    {A : Type ℓ} (r : LineRef) (a : A) (d : List (LineRef × A)) → at_ref r (set_ref r a d) ≡ some a
set_same r a d = at_ref-set_ref r r a d ∙ rw (ref_eq_refl r) refl

set_other {ℓ} :
    {A : Type ℓ} (q r : LineRef) (a : A) (d : List (LineRef × A))
    → ref_eq q r ≡ false
    → at_ref r (set_ref q a d) ≡ at_ref r d
set_other q r a d other = at_ref-set_ref q r a d ∙ rw other refl

is_flagged-at_ref :
    (r : LineRef) (a b : Reverts) → at_ref r a ≡ at_ref r b → is_flagged r a ≡ is_flagged r b
unfolding is_flagged
is_flagged-at_ref r a b e = rw (e, is_flagged) refl

-- What a gate keeps of one reference.
pub record IsSameAt (r : LineRef) (g g1 : Gate) : Type 0 where
  pub same_flag : is_flagged r g1.reverts ≡ is_flagged r g.reverts
  pub same_snapshot : at_ref r g1.snapshots ≡ at_ref r g.snapshots

module _ (scale : Scale) (two_places : ℕ × ℕ → Text) (threshold : ℕ) where
  abbrev pub refusal : LineManifest → Text → TokenAlignment → Option Refusal
  refusal = line_refusal scale two_places threshold

  -- The gate holds the change of the line, and flags the line if it refuses the change.
  pub record IsJudged (g : Gate) (lm : LineManifest) : Type 0 where
    pub kept :
        (t : Text)
        → changed_text lm ≡ some t
        → at_ref (line_ref lm) g.snapshots ≡ some (lm.ocr_text, t)
    pub caught :
        (t : Text) (al : TokenAlignment)
        → changed_text lm ≡ some t
        → line_alignment scale two_places threshold lm t ≡ some al
        → (refusal lm t al ≡ none) ⊎ (is_flagged (line_ref lm) g.reverts ≡ true)

  pub line_alignment-some :
      (lm : LineManifest) (t : Text)
      → 0 < scale.tolerance
      → (al : TokenAlignment) × (line_alignment scale two_places threshold lm t ≡ some al)
  unfolding line_alignment
  line_alignment-some lm t positive =
      let (al, found, reads) =
        align_tokens-Reads scale (char_similarity scale.one) (words lm.ocr_text) (words t) none
          positive in
      (al, found)

  note_line-IsSameAt :
      (lm : LineManifest) (t : Text) (why : Option Refusal) (g : Gate) (r : LineRef)
      → HasOtherRef r lm
      → IsSameAt r g (note_line lm t why g)
  unfolding note_line note_refusal is_flagged
  note_line-IsSameAt lm t none g r other = record {
    same_flag = refl;
    same_snapshot = set_other (line_ref lm) r _ g.snapshots other;
  }
  note_line-IsSameAt lm t (some (reason, evidence)) g r other = record {
    same_flag = is_flagged-at_ref r _ g.reverts (set_other (line_ref lm) r reason g.reverts other);
    same_snapshot = set_other (line_ref lm) r _ g.snapshots other;
  }

  note_line-kept :
      (lm : LineManifest) (t : Text) (why : Option Refusal) (g : Gate)
      → at_ref (line_ref lm) (note_line lm t why g).snapshots ≡ some (lm.ocr_text, t)
  unfolding note_line note_refusal
  note_line-kept lm t none g = set_same (line_ref lm) _ g.snapshots
  note_line-kept lm t (some (reason, evidence)) g = set_same (line_ref lm) _ g.snapshots

  note_line-caught :
      (lm : LineManifest) (t : Text) (why : Option Refusal) (g : Gate)
      → (why ≡ none) ⊎ (is_flagged (line_ref lm) (note_line lm t why g).reverts ≡ true)
  unfolding note_line note_refusal is_flagged
  note_line-caught lm t none g = inl refl
  note_line-caught lm t (some (reason, evidence)) g =
      inr (some-is_flagged (line_ref lm) _ reason (set_same (line_ref lm) reason g.reverts))

  note_line-IsJudged :
      (lm : LineManifest) (t : Text) (al : TokenAlignment) (g : Gate)
      → changed_text lm ≡ some t
      → line_alignment scale two_places threshold lm t ≡ some al
      → IsJudged (note_line lm t (refusal lm t al) g) lm
  note_line-IsJudged lm t al g changed found =
      let after = note_line lm t (refusal lm t al) g in
      record {
        kept = λ t' e.
            subst (λ x. at_ref (line_ref lm) after.snapshots ≡ some (lm.ocr_text, x))
              (some-injective _ _ (sym changed ∙ e)) (note_line-kept lm t (refusal lm t al) g);
        caught = λ t' al' e is_al.
            let same_t = some-injective _ _ (sym changed ∙ e) in
            let same_al =
              some-injective _ _
                (sym found ∙ ap (line_alignment scale two_places threshold lm) same_t ∙ is_al) in
            subst (λ x. (refusal lm x al' ≡ none) ⊎ (is_flagged (line_ref lm) after.reverts ≡ true))
              same_t
              (subst
                (λ y. (refusal lm t y ≡ none) ⊎ (is_flagged (line_ref lm) after.reverts ≡ true))
                same_al (note_line-caught lm t (refusal lm t al) g));
      }

  -- One line's turn.
  record Turn (lm : LineManifest) (g : Gate) : Type 0 where
    next : Gate
    is_next : gate_line scale two_places threshold lm g ≡ some next
    judged : IsJudged next lm
    others : (r : LineRef) → HasOtherRef r lm → IsSameAt r g next

  gate_line-Turn : (lm : LineManifest) (g : Gate) → 0 < scale.tolerance → Turn lm g
  unfolding gate_line
  gate_line-Turn lm g positive = elim (Option-cases (changed_text lm)) [
    | inl same ↦ record {
      next = g;
      is_next = rw (same, gate_line) refl;
      judged = record { kept = λ t e. absurd (cc); caught = λ t al e found. absurd (cc) };
      others = λ r other. record { same_flag = refl; same_snapshot = refl };
    }
    | inr (t, changed) ↦
        let (al, found) = line_alignment-some lm t positive in
        record {
          next = note_line lm t (refusal lm t al) g;
          is_next = rw (changed, found, gate_line) refl;
          judged = note_line-IsJudged lm t al g changed found;
          others = note_line-IsSameAt lm t (refusal lm t al) g;
        }
  ]

  pub record Gathers (lines : List LineManifest) (g : Gate) : Type 0 where
    pub result : Gate
    pub is_result : gate_lines scale two_places threshold lines g ≡ some result
    pub judged : All (IsJudged result) lines
    pub others : (r : LineRef) → All (HasOtherRef r) lines → IsSameAt r g result

  IsJudged-IsSameAt :
      (lm : LineManifest) (g g1 : Gate)
      → IsSameAt (line_ref lm) g g1
      → IsJudged g lm
      → IsJudged g1 lm
  IsJudged-IsSameAt lm g g1 same j = record {
    kept = λ t e. same.same_snapshot ∙ j.kept t e;
    caught = λ t al e found. elim (j.caught t al e found) [
      | inl fine ↦ inl fine
      | inr flagged ↦ inr (same.same_flag ∙ flagged)
    ];
  }

  pub gate_lines-Gathers :
      (lines : List LineManifest) (g : Gate) → 0 < scale.tolerance → IsApart lines → Gathers lines g
  unfolding gate_lines
  gate_lines-Gathers [] g positive apart = record {
    result = g;
    is_result = refl;
    judged = tt;
    others = λ r none_of. record { same_flag = refl; same_snapshot = refl };
  }
  gate_lines-Gathers (lm ∷ lines) g positive (away, apart) =
      let turn = gate_line-Turn lm g positive in
      let rest = gate_lines-Gathers lines turn.next positive apart in
      record {
        result = rest.result;
        is_result = rw (turn.is_next, gate_lines) rest.is_result;
        judged = (
          IsJudged-IsSameAt lm turn.next rest.result (rest.others (line_ref lm) away) turn.judged,
          rest.judged,
        );
        others = λ r others. record {
          same_flag = (rest.others r others.1).same_flag ∙ (turn.others r others.0).same_flag;
          same_snapshot =
              (rest.others r others.1).same_snapshot ∙ (turn.others r others.0).same_snapshot;
        };
      }
