-- ===== src/Editing/Accounts.antt =====
-- The refusals of `_apply_line_ops` of core/editing.py.
use corrigenda.Base.{
  ◌+◌, ◌<◌, ◌≡◌, refl, ◌⊎◌, inl, inr, Option, none, some, List, [], ◌∷◌, String, Text, length,
  length-append, All, arith, Bool-cases, All-append,
}
use corrigenda.Floats.{Floats}
use corrigenda.Manifest.{HyphenRole}
use corrigenda.Policies.{GuardConfig}
use corrigenda.Editing.Ops.{
  Range, LineOp, SpanOp, EditOp, OpKind, EditRejection, Checked, accepted, refused,
}
use corrigenda.Editing.Counts.{
  Outcome, WholeCounted, SpansCounted, line_ops-length, sort_asc-length, normalize_spans-length,
  apply_by_kind-counted,
}
use corrigenda.Editing.Line.{
  Spans, line_ops, span_ops, sort_asc, accept_spans, overlaps, refuse, overlap_refusals,
  add_checked, normalize_spans, line_result, apply_accepted, apply_normalized, apply_by_kind,
  apply_line_ops,
}

accept_spans-nonempty : (spans : Spans) → 0 < length spans → 0 < length (accept_spans none spans)
unfolding accept_spans
accept_spans-nonempty [] h = h
accept_spans-nonempty ((r, t) ∷ spans) h = omega arith

-- A refusal on a line.
abbrev pub IsRefusalOf : String → EditRejection → Type 0
IsRefusalOf line_id r = r.line_id ≡ line_id

overlap_refusals-IsRefusalOf :
    (line_id : String) (prev : Option Range) (spans : Spans)
    → All (IsRefusalOf line_id) (overlap_refusals line_id prev spans)
unfolding overlap_refusals
overlap_refusals-IsRefusalOf line_id prev [] = tt
overlap_refusals-IsRefusalOf line_id prev ((r, t) ∷ rest) = elim (Bool-cases (overlaps prev r)) [
  | inl e ↦ rw e (refl, overlap_refusals-IsRefusalOf line_id prev rest)
  | inr e ↦ rw e (overlap_refusals-IsRefusalOf line_id (some r) rest)
]

module _ (fl : Floats) (guard : GuardConfig fl) where
  line_result-none :
      (line_id : String) (k : OpKind) (before : List EditRejection) (c : Checked Text)
      → (line_result fl guard line_id k before c).0 ≡ none
      → 0 < length (line_result fl guard line_id k before c).1
  unfolding line_result
  line_result-none line_id k before (accepted t) h = cc
  line_result-none line_id k before (refused r) h =
      omega (arith, length-append before (refuse line_id k r ∷ []))

  apply_accepted-none :
      (line_id : String) (role : HyphenRole) (canonical : Text) (refusals : List EditRejection)
      (kept : Spans)
      → 0 < length refusals + length kept
      → (apply_accepted fl guard line_id role canonical refusals kept).0 ≡ none
      → 0 < length (apply_accepted fl guard line_id role canonical refusals kept).1
  unfolding apply_accepted
  apply_accepted-none line_id role canonical refusals [] b h = omega arith
  apply_accepted-none line_id role canonical refusals (s ∷ kept) b h =
      line_result-none line_id OpKind.replace_span refusals _ h

  apply_normalized-none :
      (line_id : String) (role : HyphenRole) (canonical : Text) (refusals : List EditRejection)
      (spans : Spans)
      → 0 < length refusals + length spans
      → (apply_normalized fl guard line_id role canonical refusals spans).0 ≡ none
      → 0 < length (apply_normalized fl guard line_id role canonical refusals spans).1
  unfolding apply_normalized
  apply_normalized-none line_id role canonical refusals [] b h = omega arith
  apply_normalized-none line_id role canonical refusals (s ∷ spans) b h =
      apply_accepted-none line_id role canonical _ _
        (omega (
          arith,
          accept_spans-nonempty (sort_asc (s ∷ spans)) (omega (arith, sort_asc-length (s ∷ spans))),
        ))
        h

  apply_by_kind-none :
      (os : List LineOp) (ss : List SpanOp) (line_id : String) (role : HyphenRole)
      (canonical : Text)
      → 0 < length os + length ss
      → (apply_by_kind fl guard os ss line_id canonical role).0 ≡ none
      → 0 < length (apply_by_kind fl guard os ss line_id canonical role).1
  unfolding apply_by_kind
  apply_by_kind-none [] ss line_id role canonical b h =
      apply_normalized-none line_id role canonical _ _
        (omega (arith, normalize_spans-length fl guard line_id canonical ss)) h
  apply_by_kind-none (o ∷ os) ss line_id role canonical b h =
      line_result-none line_id OpKind.replace_line [] _ h

  add_checked-IsRefusalOf :
      (line_id : String) (c : Checked (Range × Text)) (acc : List EditRejection × Spans)
      → All (IsRefusalOf line_id) acc.0
      → All (IsRefusalOf line_id) (add_checked fl guard line_id c acc).0
  unfolding add_checked
  add_checked-IsRefusalOf line_id (accepted s) acc h = h
  add_checked-IsRefusalOf line_id (refused r) acc h = (refl, h)

  normalize_spans-IsRefusalOf :
      (line_id : String) (canonical : Text) (ops : List SpanOp)
      → All (IsRefusalOf line_id) (normalize_spans fl guard line_id canonical ops).0
  unfolding normalize_spans
  normalize_spans-IsRefusalOf line_id canonical [] = tt
  normalize_spans-IsRefusalOf line_id canonical (op ∷ ops) =
      add_checked-IsRefusalOf line_id _ _ (normalize_spans-IsRefusalOf line_id canonical ops)

  line_result-IsRefusalOf :
      (line_id : String) (k : OpKind) (before : List EditRejection) (c : Checked Text)
      → All (IsRefusalOf line_id) before
      → All (IsRefusalOf line_id) (line_result fl guard line_id k before c).1
  unfolding line_result
  line_result-IsRefusalOf line_id k before (accepted t) h = h
  line_result-IsRefusalOf line_id k before (refused r) h =
      All-append (IsRefusalOf line_id) before _ h (refl, tt)

  apply_accepted-IsRefusalOf :
      (line_id : String) (role : HyphenRole) (canonical : Text) (refusals : List EditRejection)
      (kept : Spans)
      → All (IsRefusalOf line_id) refusals
      → All (IsRefusalOf line_id) (apply_accepted fl guard line_id role canonical refusals kept).1
  unfolding apply_accepted
  apply_accepted-IsRefusalOf line_id role canonical refusals [] h = h
  apply_accepted-IsRefusalOf line_id role canonical refusals (s ∷ kept) h =
      line_result-IsRefusalOf line_id OpKind.replace_span refusals _ h

  apply_normalized-IsRefusalOf :
      (line_id : String) (role : HyphenRole) (canonical : Text) (refusals : List EditRejection)
      (spans : Spans)
      → All (IsRefusalOf line_id) refusals
      → All
          (IsRefusalOf line_id)
          (apply_normalized fl guard line_id role canonical refusals spans).1
  unfolding apply_normalized
  apply_normalized-IsRefusalOf line_id role canonical refusals [] h = h
  apply_normalized-IsRefusalOf line_id role canonical refusals (s ∷ spans) h =
      apply_accepted-IsRefusalOf line_id role canonical _ _ (
        All-append (IsRefusalOf line_id) refusals _ h
          (overlap_refusals-IsRefusalOf line_id none (sort_asc (s ∷ spans))))

  apply_by_kind-IsRefusalOf :
      (os : List LineOp) (ss : List SpanOp) (line_id : String) (role : HyphenRole)
      (canonical : Text)
      → All (IsRefusalOf line_id) (apply_by_kind fl guard os ss line_id canonical role).1
  unfolding apply_by_kind
  apply_by_kind-IsRefusalOf [] ss line_id role canonical =
      apply_normalized-IsRefusalOf line_id role canonical _ _
        (normalize_spans-IsRefusalOf line_id canonical ss)
  apply_by_kind-IsRefusalOf (o ∷ os) ss line_id role canonical =
      line_result-IsRefusalOf line_id OpKind.replace_line [] _ tt

  -- What the operations on a line come to: a text, or at least one refusal; every refusal names the
  -- line; and the refusals are as many as the operations that are not in the text.
  pub record IsAccounted (ops : List EditOp) (line_id : String) (canonical : Text)
      (outcome : Outcome) : Type 0 where
    pub answered : outcome.0 ≡ none → 0 < length outcome.1
    pub named : All (IsRefusalOf line_id) outcome.1
    pub counted : WholeCounted ops outcome ⊎ SpansCounted fl guard ops canonical outcome

  -- The operations on a line, if there is one, give it a text or leave a refusal, and every refusal
  -- names the line. With a whole-line proposal among them, a text comes from that one operation
  -- alone and without a refusal, and otherwise the line has a single refusal. Where all are spans
  -- none is dropped silently: with a text, it is the canonical text with the spans that stand
  -- replaced, and the refusals and these spans are together as many as the operations; without one,
  -- they are as many as the operations and one refusal for those that stand, if any does.
  pub apply_line_ops-IsAccounted :
      (o : EditOp) (ops : List EditOp) (line_id : String) (role : HyphenRole) (canonical : Text)
      → IsAccounted
          (o ∷ ops)
          line_id
          canonical
          (apply_line_ops fl guard line_id (o ∷ ops) canonical role)
  unfolding apply_line_ops
  apply_line_ops-IsAccounted o ops line_id role canonical =
      let all = o ∷ ops in
      record {
        answered =
            apply_by_kind-none (line_ops all) (span_ops all) line_id role canonical
              (omega (arith, line_ops-length all));
        named = apply_by_kind-IsRefusalOf (line_ops all) (span_ops all) line_id role canonical;
        counted = apply_by_kind-counted fl guard all (line_ops all) line_id role canonical refl;
      }
