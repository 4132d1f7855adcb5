-- ===== src/Editing/Counts.antt =====
-- How many refusals `_apply_line_ops` of core/editing.py leaves for the operations on a line.
use corrigenda.Base.{
  suc, ◌+◌, ◌<◌, min, ◌≡◌, refl, ◌∙◌, ap, ◌⊎◌, inl, inr, Option, none, some, List, [], ◌∷◌, String,
  Text, length, length-append, arith, Bool-cases,
}
use corrigenda.Floats.{Floats}
use corrigenda.Manifest.{HyphenRole}
use corrigenda.Policies.{GuardConfig}
use corrigenda.Editing.Ops.{
  Range, LineOp, SpanOp, EditOp, whole, span, OpKind, EditRejection, Checked, accepted, refused,
}
use corrigenda.Editing.Line.{
  Spans, line_ops, span_ops, apply_spans, insert_asc, sort_asc, accept_spans, overlaps, refuse,
  overlap_refusals, add_checked, normalize_spans, whole_line_verdict, checked_unless, spans_verdict,
  line_result, apply_accepted, apply_normalized, apply_by_kind,
}
use corrigenda.Editing.Splice.{weave}
use corrigenda.Editing.Standing.{Standing, accept_spans-Standing}

pub line_ops-length :
    (ops : List EditOp) → length (line_ops ops) + length (span_ops ops) ≡ length ops
unfolding line_ops span_ops
line_ops-length [] = refl
line_ops-length (whole o ∷ ops) = omega (arith, line_ops-length ops)
line_ops-length (span o ∷ ops) = omega (arith, line_ops-length ops)

insert_asc-length : (s : Range × Text) (l : Spans) → length (insert_asc s l) ≡ suc (length l)
unfolding insert_asc
insert_asc-length (r, t) [] = refl
insert_asc-length (r, t) ((q, u) ∷ l) = ground (arith, insert_asc-length (r, t) l)

pub sort_asc-length : (l : Spans) → length (sort_asc l) ≡ length l
unfolding sort_asc
sort_asc-length [] = refl
sort_asc-length (s ∷ l) = insert_asc-length s (sort_asc l) ∙ ap suc (sort_asc-length l)

-- Each span of the list is accepted or refused for its overlap.
accept_spans-length :
    (line_id : String) (prev : Option Range) (l : Spans)
    → length (overlap_refusals line_id prev l) + length (accept_spans prev l) ≡ length l
unfolding overlap_refusals accept_spans
accept_spans-length line_id prev [] = refl
accept_spans-length line_id prev ((r, t) ∷ l) = elim (Bool-cases (overlaps prev r)) [
  | inl e ↦ rw e (omega (arith, accept_spans-length line_id prev l))
  | inr e ↦ rw e (omega (arith, accept_spans-length line_id (some r) l))
]

abbrev pub Outcome : Type 0
Outcome = Option Text × List EditRejection

-- Operations with a whole-line proposal: a text comes from a single one and no refusal, and
-- otherwise there is one refusal for the line.
pub record WholeCounted (ops : List EditOp) (outcome : Outcome) : Type 0 where
  pub some_whole : 0 < length (line_ops ops)
  pub alone : (text : Text) → outcome.0 ≡ some text → (length ops ≡ 1) × (outcome.1 ≡ [])
  pub one_refusal : outcome.0 ≡ none → length outcome.1 ≡ 1

module _ (fl : Floats) (guard : GuardConfig fl) where
  -- Span operations only. With a text, the spans in it and the refusals are as many as the
  -- operations; without one, the spans that stand have one more refusal together, if there are any.
  pub record SpansCounted (ops : List EditOp) (canonical : Text) (outcome : Outcome) : Type 0 where
    pub no_whole : line_ops ops ≡ []
    pub spans : Spans
    pub standing : Standing fl guard canonical (span_ops ops) spans
    pub put :
        (text : Text)
        → outcome.0 ≡ some text
        → (text ≡ weave 0 canonical spans) × (length outcome.1 + length spans ≡ length ops)
    pub not_put :
        outcome.0 ≡ none → length outcome.1 + length spans ≡ length ops + min 1 (length spans)

  add_checked-length :
      (line_id : String) (c : Checked (Range × Text)) (acc : List EditRejection × Spans)
      → length (add_checked fl guard line_id c acc).0
          + length (add_checked fl guard line_id c acc).1
        ≡ suc (length acc.0 + length acc.1)
  unfolding add_checked
  add_checked-length line_id (accepted s) acc = omega arith
  add_checked-length line_id (refused r) acc = omega arith

  pub normalize_spans-length :
      (line_id : String) (canonical : Text) (ops : List SpanOp)
      → length (normalize_spans fl guard line_id canonical ops).0
          + length (normalize_spans fl guard line_id canonical ops).1
        ≡ length ops
  unfolding normalize_spans
  normalize_spans-length line_id canonical [] = refl
  normalize_spans-length line_id canonical (op ∷ ops) =
      add_checked-length line_id _ (normalize_spans fl guard line_id canonical ops)
      ∙ ap suc (normalize_spans-length line_id canonical ops)

  whole_line_verdict-alone :
      (o : LineOp) (os : List LineOp) (ss : List SpanOp) (role : HyphenRole) (canonical text : Text)
      → whole_line_verdict fl guard (o ∷ os) ss role canonical ≡ accepted text
      → length (o ∷ os) + length ss ≡ 1
  unfolding whole_line_verdict
  whole_line_verdict-alone o [] [] role canonical text h = refl
  whole_line_verdict-alone o [] (s ∷ ss) role canonical text h = cc
  whole_line_verdict-alone o (p ∷ os) ss role canonical text h = cc

  line_result-WholeCounted :
      (ops : List EditOp) (line_id : String) (k : OpKind) (c : Checked Text)
      → 0 < length (line_ops ops)
      → ((text : Text) → c ≡ accepted text → length ops ≡ 1)
      → WholeCounted ops (line_result fl guard line_id k [] c)
  unfolding line_result
  line_result-WholeCounted ops line_id k (accepted t) p h = record {
    some_whole = p;
    alone = λ text e. (h t refl, refl);
    one_refusal = λ e. cc;
  }
  line_result-WholeCounted ops line_id k (refused r) p h = record {
    some_whole = p;
    alone = λ text e. cc;
    one_refusal = λ e. refl;
  }

  spans_verdict-text :
      (role : HyphenRole) (canonical text : Text) (spans : Spans)
      → spans_verdict fl guard role canonical spans ≡ accepted text
      → text ≡ apply_spans canonical spans
  unfolding spans_verdict checked_unless
  spans_verdict-text role canonical text spans h = ground arith

  line_result-SpansCounted :
      (ops : List EditOp) (line_id : String) (k : OpKind) (canonical : Text)
      (before : List EditRejection) (spans : Spans) (c : Checked Text)
      → line_ops ops ≡ []
      → Standing fl guard canonical (span_ops ops) spans
      → 0 < length spans
      → length before + length spans ≡ length ops
      → ((text : Text) → c ≡ accepted text → text ≡ weave 0 canonical spans)
      → SpansCounted ops canonical (line_result fl guard line_id k before c)
  unfolding line_result
  line_result-SpansCounted ops line_id k canonical before spans (accepted t) e s p n h = record {
    no_whole = e;
    spans = spans;
    standing = s;
    put = λ text q. (h text (ground (arith, q)), n);
    not_put = λ q. cc;
  }
  line_result-SpansCounted ops line_id k canonical before spans (refused r) e s p n h = record {
    no_whole = e;
    spans = spans;
    standing = s;
    put = λ text q. cc;
    not_put = λ q. omega (arith, length-append before (refuse line_id k r ∷ []));
  }

  apply_accepted-SpansCounted :
      (ops : List EditOp) (line_id : String) (role : HyphenRole) (canonical : Text)
      (refusals : List EditRejection) (spans : Spans)
      → line_ops ops ≡ []
      → Standing fl guard canonical (span_ops ops) spans
      → apply_spans canonical spans ≡ weave 0 canonical spans
      → length refusals + length spans ≡ length ops
      → SpansCounted ops canonical (apply_accepted fl guard line_id role canonical refusals spans)
  unfolding apply_accepted
  apply_accepted-SpansCounted ops line_id role canonical refusals [] e s w n = record {
    no_whole = e;
    spans = [];
    standing = s;
    put = λ text q. cc;
    not_put = λ q. n ∙ omega arith;
  }
  apply_accepted-SpansCounted ops line_id role canonical refusals (x ∷ spans) e s w n =
      line_result-SpansCounted ops line_id OpKind.replace_span canonical refusals (x ∷ spans) _ e s
        (omega arith) n (λ text q. spans_verdict-text role canonical text (x ∷ spans) q ∙ w)

  apply_normalized-SpansCounted :
      (ops : List EditOp) (line_id : String) (role : HyphenRole) (canonical : Text)
      (refusals : List EditRejection) (spans : Spans)
      → line_ops ops ≡ []
      → let kept = accept_spans none (sort_asc spans) in
        Standing fl guard canonical (span_ops ops) kept
          × (apply_spans canonical kept ≡ weave 0 canonical kept)
        → length refusals + length spans ≡ length ops
        → SpansCounted ops canonical
            (apply_normalized fl guard line_id role canonical refusals spans)
  unfolding apply_normalized
  apply_normalized-SpansCounted ops line_id role canonical refusals [] e p n = record {
    no_whole = e;
    spans = [];
    standing = unfold sort_asc accept_spans in p.0;
    put = λ text q. cc;
    not_put = λ q. n ∙ omega arith;
  }
  apply_normalized-SpansCounted ops line_id role canonical refusals (x ∷ spans) e p n =
      let sorted = sort_asc (x ∷ spans) in
      apply_accepted-SpansCounted ops line_id role canonical _ _ e p.0 p.1 (
        omega (
          arith,
          n,
          length-append refusals (overlap_refusals line_id none sorted),
          accept_spans-length line_id none sorted,
          sort_asc-length (x ∷ spans),
        ))

  -- Every operation is counted, on either path.
  pub apply_by_kind-counted :
      (ops : List EditOp) (os : List LineOp) (line_id : String) (role : HyphenRole)
      (canonical : Text)
      → line_ops ops ≡ os
      → let outcome = apply_by_kind fl guard os (span_ops ops) line_id canonical role in
        WholeCounted ops outcome ⊎ SpansCounted ops canonical outcome
  unfolding apply_by_kind
  apply_by_kind-counted ops [] line_id role canonical e = inr (
      apply_normalized-SpansCounted ops line_id role canonical _ _ e
        (accept_spans-Standing fl guard line_id canonical (span_ops ops))
        (omega (
          arith,
          normalize_spans-length line_id canonical (span_ops ops),
          line_ops-length ops,
          ap length e,
        )))
  apply_by_kind-counted ops (o ∷ os) line_id role canonical e = inl (
      line_result-WholeCounted ops line_id OpKind.replace_line _ (omega (arith, ap length e))
        (λ text q. omega (
          arith,
          whole_line_verdict-alone o os (span_ops ops) role canonical text q,
          line_ops-length ops,
          ap length e,
        )))
