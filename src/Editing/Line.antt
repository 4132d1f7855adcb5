-- ===== src/Editing/Line.antt =====
-- The operations on one line in core/editing.py: `_whole_line_verdict`, `_apply_spans` and
-- `_apply_line_ops`. The list that the source appends refusals to is returned.
use corrigenda.Base.{
  ℕ, ◌+◌, ◌-◌, max, pos, Bool, false, ◌&&◌, ◌||◌, not, Option, none, some, List, [], ◌∷◌, ◌++◌,
  String, Text, length, take, drop, slice, is_blank, ltb, leb, ◌==◌, if◌then◌else◌,
}
use corrigenda.Floats.{Floats}
use corrigenda.Manifest.{HyphenRole}
use corrigenda.Policies.{GuardConfig}
use corrigenda.Editing.Ops.{
  Range, LineOp, SpanOp, EditOp, whole, span, OpKind, Reason, EditRejection, Checked, accepted,
  refused,
}
use corrigenda.Editing.Anchor.{normalize_anchor}
use corrigenda.Editing.Drift.{
  has_line_separator, changed_chars, e5_hyphen_ok, e5b_boundary_word_kept,
}

abbrev pub Spans : Type 0
Spans = List (Range × Text)

unfoldable pub line_ops : List EditOp → List LineOp
line_ops [] = []
line_ops (whole o ∷ ops) = o ∷ line_ops ops
line_ops (span o ∷ ops) = line_ops ops

unfoldable pub span_ops : List EditOp → List SpanOp
span_ops [] = []
span_ops (whole o ∷ ops) = span_ops ops
span_ops (span o ∷ ops) = o ∷ span_ops ops

-- `text[:start] + replacement + text[end:]`
unfoldable pub put_span : Range × Text → Text → Text
put_span (r, new) text = take r.start text ++ (new ++ drop r.end text)

-- `sorted(…, key=start, reverse=True)`, which keeps the order of equal keys.
unfoldable pub insert_desc : Range × Text → Spans → Spans
insert_desc (r, t) [] = (r, t) ∷ []
insert_desc (r, t) ((q, u) ∷ rest) =
    if leb q.start r.start then (r, t) ∷ (q, u) ∷ rest else (q, u) ∷ insert_desc (r, t) rest

unfoldable pub sort_desc : Spans → Spans
unfolding insert_desc
sort_desc [] = []
sort_desc (s ∷ rest) = insert_desc s (sort_desc rest)

unfoldable pub put_all : Spans → Text → Text
unfolding put_span
put_all [] text = text
put_all (s ∷ rest) text = put_all rest (put_span s text)

unfoldable pub apply_spans : Text → Spans → Text
unfolding sort_desc put_all
apply_spans canonical ranges = put_all (sort_desc ranges) canonical

-- `normalized.sort(key=(start, end))`, which keeps the order of equal keys.
unfoldable pub key_le : Range → Range → Bool
key_le a b = ltb a.start b.start || (a.start == b.start && leb a.end b.end)

unfoldable pub insert_asc : Range × Text → Spans → Spans
unfolding key_le
insert_asc (r, t) [] = (r, t) ∷ []
insert_asc (r, t) ((q, u) ∷ rest) =
    if key_le r q then (r, t) ∷ (q, u) ∷ rest else (q, u) ∷ insert_asc (r, t) rest

unfoldable pub sort_asc : Spans → Spans
unfolding insert_asc
sort_asc [] = []
sort_asc (s ∷ rest) = insert_asc s (sort_asc rest)

-- `rng.start < prev_end or rng.start == prev_start`; before the first span both are -1.
unfoldable pub overlaps : Option Range → Range → Bool
overlaps none r = false
overlaps (some prev) r = ltb r.start prev.end || (r.start == prev.start)

-- The spans that the loop over `normalized` accepts, in order.
unfoldable pub accept_spans : Option Range → Spans → Spans
unfolding overlaps
accept_spans prev [] = []
accept_spans prev ((r, t) ∷ rest) =
    let kept = (r, t) ∷ accept_spans (some r) rest in
    let skipped = accept_spans prev rest in if overlaps prev r then skipped else kept

-- The characters that the accepted spans change.
unfoldable pub total_changed : Text → Spans → ℕ
unfolding changed_chars slice
total_changed canonical [] = 0
total_changed canonical ((r, t) ∷ rest) =
    changed_chars (slice r.start r.end canonical) t + total_changed canonical rest

-- The refusals of that loop.
unfoldable pub refuse : String → OpKind → Reason → EditRejection
refuse line_id op reason = record { line_id = line_id; op = op; reason = reason }

unfoldable pub overlap_refusals : String → Option Range → Spans → List EditRejection
unfolding overlaps refuse
overlap_refusals line_id prev [] = []
overlap_refusals line_id prev ((r, t) ∷ rest) =
    let kept = overlap_refusals line_id (some r) rest in
    let skipped =
      refuse line_id OpKind.replace_span Reason.overlap ∷ overlap_refusals line_id prev rest in
    if overlaps prev r then skipped else kept

module _ (fl : Floats) (guard : GuardConfig fl) where
  -- The first loop on one span operation: newline, anchor, growth ratio (E4).
  unfoldable pub check_growth : SpanOp → Range → Checked (Range × Text)
  check_growth op r =
      if fl.lt (fl.mul guard.edit_span_max_growth_ratio (fl.of_ℤ (pos (max 1 (r.end - r.start)))))
        (fl.of_ℤ (pos (length op.text)))
      then refused Reason.drift_ratio
      else accepted (r, op.text)

  unfoldable pub check_span : Text → SpanOp → Checked (Range × Text)
  check_span canonical op =
      if has_line_separator op.text
      then refused Reason.newline
      else elim (normalize_anchor op.anchor canonical) [
        | refused reason ↦ refused reason
        | accepted r ↦ check_growth op r
      ]

  unfoldable pub add_checked :
      String → Checked (Range × Text) → List EditRejection × Spans → List EditRejection × Spans
  unfolding refuse
  add_checked line_id (accepted s) (rejections, spans) = (rejections, s ∷ spans)
  add_checked line_id (refused reason) (rejections, spans) =
      (refuse line_id OpKind.replace_span reason ∷ rejections, spans)

  unfoldable pub normalize_spans : String → Text → List SpanOp → List EditRejection × Spans
  normalize_spans line_id canonical [] = ([], [])
  normalize_spans line_id canonical (op ∷ ops) =
      add_checked line_id (check_span canonical op) (normalize_spans line_id canonical ops)

  -- `_whole_line_drift_refusal`
  unfoldable pub whole_line_drift_refusal : HyphenRole → Text → Text → Option Reason
  whole_line_drift_refusal role canonical text =
      if ltb guard.edit_line_max_changed_chars (changed_chars canonical text)
      then some Reason.drift_budget
      else if e5_hyphen_ok role text canonical
      then none
      else some Reason.hyphen

  unfoldable pub checked_unless : Text → Option Reason → Checked Text
  checked_unless text none = accepted text
  checked_unless text (some reason) = refused reason

  -- `_whole_line_verdict`; the list of whole-line operations is not empty.
  unfoldable pub whole_line_verdict : List LineOp → List SpanOp → HyphenRole → Text → Checked Text
  whole_line_verdict [] spans role canonical = refused Reason.conflict
  whole_line_verdict (o ∷ p ∷ rest) spans role canonical = refused Reason.conflict
  whole_line_verdict (o ∷ []) (s ∷ spans) role canonical = refused Reason.conflict
  whole_line_verdict (o ∷ []) [] role canonical =
      if has_line_separator o.text
      then refused Reason.newline
      else if is_blank o.text
      then refused Reason.empty
      else checked_unless o.text (whole_line_drift_refusal role canonical o.text)

  -- `_e5_refusal`
  unfoldable pub e5_refusal : HyphenRole → Text → Text → Spans → Option Reason
  e5_refusal role canonical result spans =
      if not (e5_hyphen_ok role result canonical)
      then some Reason.hyphen
      else if not (e5b_boundary_word_kept role canonical spans)
      then some Reason.boundary_word
      else none

  -- What follows the loops once some spans are accepted: budget (E4), result (E3), E5.
  unfoldable pub spans_verdict : HyphenRole → Text → Spans → Checked Text
  spans_verdict role canonical spans =
      if ltb guard.edit_line_max_changed_chars (total_changed canonical spans)
      then refused Reason.drift_budget
      else if is_blank (apply_spans canonical spans)
      then refused Reason.empty
      else checked_unless (apply_spans canonical spans)
          (e5_refusal role canonical (apply_spans canonical spans) spans)

  -- A verdict on the line, behind the refusals of single operations.
  unfoldable pub line_result :
      String → OpKind → List EditRejection → Checked Text → Option Text × List EditRejection
  unfolding refuse
  line_result line_id op before (accepted text) = (some text, before)
  line_result line_id op before (refused reason) = (none, before ++ refuse line_id op reason ∷ [])

  -- What follows the loop over the spans, on those that it accepted.
  unfoldable pub apply_accepted :
      String → HyphenRole → Text → List EditRejection → Spans → Option Text × List EditRejection
  apply_accepted line_id role canonical refusals [] = (none, refusals)
  apply_accepted line_id role canonical refusals (s ∷ spans) =
      line_result line_id OpKind.replace_span refusals (spans_verdict role canonical (s ∷ spans))

  unfoldable pub apply_normalized :
      String → HyphenRole → Text → List EditRejection → Spans → Option Text × List EditRejection
  apply_normalized line_id role canonical refusals [] = (none, refusals)
  apply_normalized line_id role canonical refusals (s ∷ spans) =
      let sorted = sort_asc (s ∷ spans) in
      apply_accepted line_id role canonical (refusals ++ overlap_refusals line_id none sorted)
        (accept_spans none sorted)

  -- The two paths, told apart by whether some operation is a whole-line one.
  unfoldable pub apply_by_kind :
      List LineOp → List SpanOp → String → Text → HyphenRole → Option Text × List EditRejection
  apply_by_kind (o ∷ rest) spans line_id canonical role =
      line_result line_id OpKind.replace_line []
        (whole_line_verdict (o ∷ rest) spans role canonical)
  apply_by_kind [] spans line_id canonical role =
      let (refusals, normalized) = normalize_spans line_id canonical spans in
      apply_normalized line_id role canonical refusals normalized

  unfoldable pub apply_line_ops :
      String → List EditOp → Text → HyphenRole → Option Text × List EditRejection
  unfolding apply_by_kind
  apply_line_ops line_id ops canonical role =
      apply_by_kind (line_ops ops) (span_ops ops) line_id canonical role
