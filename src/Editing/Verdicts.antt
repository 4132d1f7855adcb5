-- ===== src/Editing/Verdicts.antt =====
-- What `_apply_line_ops` of core/editing.py lets through.
use corrigenda.Base.{
  ◌≤◌, ◌<◌, true, false, ◌≡◌, refl, ◌∙◌, ◌⊎◌, inl, inr, none, some, List, [], ◌∷◌, String, Text,
  length, is_blank, arith,
}
use corrigenda.Floats.{Floats}
use corrigenda.Manifest.{HyphenRole}
use corrigenda.Policies.{GuardConfig}
use corrigenda.Editing.Ops.{LineOp, SpanOp, EditOp, OpKind, EditRejection, Checked, accepted}
use corrigenda.Editing.Drift.{
  has_line_separator, changed_chars, e5_hyphen_ok, e5b_boundary_word_kept,
}
use corrigenda.Editing.Line.{
  Spans, line_ops, span_ops, apply_spans, sort_asc, accept_spans, total_changed,
  whole_line_drift_refusal, checked_unless, whole_line_verdict, e5_refusal, spans_verdict,
  line_result, apply_accepted, apply_normalized, apply_by_kind, apply_line_ops,
}
use corrigenda.Editing.Splice.{weave}
use corrigenda.Editing.Standing.{Standing, accept_spans-Standing}

module _ (fl : Floats) (guard : GuardConfig fl) where
  -- A whole-line proposal that stands: the only operation on its line, with no line separator.
  pub record FromWhole (ops : List EditOp) (canonical text : Text) : Type 0 where
    pub op : LineOp
    pub alone : line_ops ops ≡ op ∷ []
    pub no_spans : span_ops ops ≡ []
    pub proposed : text ≡ op.text
    pub is_one_line : has_line_separator text ≡ false
    pub within_budget : changed_chars canonical text ≤ guard.edit_line_max_changed_chars

  -- The spans of the operations that stand, replaced where they stand in the canonical text, within
  -- the budget and without erasing the word that continues a broken one.
  pub record FromSpans (ops : List EditOp) (role : HyphenRole) (canonical text : Text)
      : Type 0 where
    pub no_whole : line_ops ops ≡ []
    pub spans : Spans
    pub is_some : 0 < length spans
    pub standing : Standing fl guard canonical (span_ops ops) spans
    pub woven : text ≡ weave 0 canonical spans
    pub within_budget : total_changed canonical spans ≤ guard.edit_line_max_changed_chars
    pub boundary_kept : e5b_boundary_word_kept role canonical spans ≡ true

  -- What every text that comes out of the operations on a line satisfies.
  pub record Kept (ops : List EditOp) (role : HyphenRole) (canonical text : Text) : Type 0 where
    pub not_blank : is_blank text ≡ false
    pub hyphen_kept : e5_hyphen_ok role text canonical ≡ true
    pub origin : FromWhole ops canonical text ⊎ FromSpans ops role canonical text

  whole_line_verdict-Kept :
      (ops : List EditOp) (os : List LineOp) (ss : List SpanOp) (role : HyphenRole)
      (canonical text : Text)
      → line_ops ops ≡ os
      → span_ops ops ≡ ss
      → whole_line_verdict fl guard os ss role canonical ≡ accepted text
      → Kept ops role canonical text
  unfolding whole_line_verdict whole_line_drift_refusal checked_unless
  whole_line_verdict-Kept ops [] ss role canonical text e f h = cc
  whole_line_verdict-Kept ops (o ∷ p ∷ os) ss role canonical text e f h = cc
  whole_line_verdict-Kept ops (o ∷ []) (s ∷ ss) role canonical text e f h = cc
  whole_line_verdict-Kept ops (o ∷ []) [] role canonical text e f h =
      let same : text ≡ o.text = ground arith in
      record {
        not_blank = rw same (ground arith);
        hyphen_kept = rw same (ground arith);
        origin = inl (record {
          op = o;
          alone = e;
          no_spans = f;
          proposed = same;
          is_one_line = rw same (ground arith);
          within_budget = rw same (ground arith);
        });
      }

  spans_verdict-Kept :
      (ops : List EditOp) (role : HyphenRole) (canonical text : Text) (spans : Spans)
      → line_ops ops ≡ []
      → 0 < length spans
      → Standing fl guard canonical (span_ops ops) spans
      → apply_spans canonical spans ≡ weave 0 canonical spans
      → spans_verdict fl guard role canonical spans ≡ accepted text
      → Kept ops role canonical text
  unfolding spans_verdict e5_refusal checked_unless
  spans_verdict-Kept ops role canonical text spans e p a w h =
      let same : text ≡ apply_spans canonical spans = ground arith in
      record {
        not_blank = rw same (ground arith);
        hyphen_kept = rw same (ground arith);
        origin = inr (record {
          no_whole = e;
          spans = spans;
          is_some = p;
          standing = a;
          woven = same ∙ w;
          within_budget = ground arith;
          boundary_kept = ground arith;
        });
      }

  line_result-some :
      (line_id : String) (k : OpKind) (before : List EditRejection) (c : Checked Text) (text : Text)
      → (line_result fl guard line_id k before c).0 ≡ some text
      → c ≡ accepted text
  unfolding line_result
  line_result-some line_id k before c text h = ground arith

  apply_accepted-Kept :
      (ops : List EditOp) (line_id : String) (role : HyphenRole) (canonical text : Text)
      (refusals : List EditRejection) (spans : Spans)
      → line_ops ops ≡ []
      → Standing fl guard canonical (span_ops ops) spans
      → apply_spans canonical spans ≡ weave 0 canonical spans
      → (apply_accepted fl guard line_id role canonical refusals spans).0 ≡ some text
      → Kept ops role canonical text
  unfolding apply_accepted
  apply_accepted-Kept ops line_id role canonical text refusals [] e a w h = cc
  apply_accepted-Kept ops line_id role canonical text refusals (s ∷ spans) e a w h =
      spans_verdict-Kept ops role canonical text (s ∷ spans) e (omega arith) a w
        (line_result-some _ _ _ _ text h)

  apply_normalized-Kept :
      (ops : List EditOp) (line_id : String) (role : HyphenRole) (canonical text : Text)
      (refusals : List EditRejection) (spans : Spans)
      → line_ops ops ≡ []
      → let kept = accept_spans none (sort_asc spans) in
        Standing fl guard canonical (span_ops ops) kept
          × (apply_spans canonical kept ≡ weave 0 canonical kept)
        → (apply_normalized fl guard line_id role canonical refusals spans).0 ≡ some text
        → Kept ops role canonical text
  unfolding apply_normalized
  apply_normalized-Kept ops line_id role canonical text refusals [] e p h = cc
  apply_normalized-Kept ops line_id role canonical text refusals (s ∷ spans) e p h =
      apply_accepted-Kept ops line_id role canonical text _ _ e p.0 p.1 h

  apply_by_kind-Kept :
      (ops : List EditOp) (os : List LineOp) (line_id : String) (role : HyphenRole)
      (canonical text : Text)
      → line_ops ops ≡ os
      → (apply_by_kind fl guard os (span_ops ops) line_id canonical role).0 ≡ some text
      → Kept ops role canonical text
  unfolding apply_by_kind
  apply_by_kind-Kept ops [] line_id role canonical text e h =
      apply_normalized-Kept ops line_id role canonical text _ _ e
        (accept_spans-Standing fl guard line_id canonical (span_ops ops)) h
  apply_by_kind-Kept ops (o ∷ os) line_id role canonical text e h =
      whole_line_verdict-Kept ops (o ∷ os) (span_ops ops) role canonical text e refl
        (line_result-some _ _ _ _ text h)

  -- A text that comes out of the operations on a line is not blank and keeps the line's break mark.
  -- It is either the one whole-line proposal, alone on its line, with no line separator and within
  -- the budget of changed characters; or the canonical text with spans of the line's own operations
  -- replaced, at least one. Each of them is the range that the anchor of an operation names and the
  -- text of that operation, which is one line and not too long for the range; they lie apart, and
  -- an operation that asks for such a span is left out only for one among them that begins no later
  -- and overlaps it; and together they change no more characters than the budget and do not erase
  -- the boundary word.
  pub apply_line_ops-Kept :
      (ops : List EditOp) (line_id : String) (role : HyphenRole) (canonical text : Text)
      → (apply_line_ops fl guard line_id ops canonical role).0 ≡ some text
      → Kept ops role canonical text
  unfolding apply_line_ops
  apply_line_ops-Kept ops line_id role canonical text h =
      apply_by_kind-Kept ops (line_ops ops) line_id role canonical text refl h
