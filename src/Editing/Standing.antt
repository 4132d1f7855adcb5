-- ===== src/Editing/Standing.antt =====
-- The span operations of a line in core/editing.py (`_apply_line_ops`): which of them stand.
use corrigenda.Base.{
  ◌-◌, max, pos, false, ◌≡◌, refl, sym, ◌∙◌, ap, ◌⊎◌, inl, inr, none, List, [], ◌∷◌, String, Text,
  length, All, Any, arith,
}
use corrigenda.Floats.{Floats}
use corrigenda.Policies.{GuardConfig}
use corrigenda.Editing.Ops.{Range, SpanOp, Reason, EditRejection, Checked, accepted, refused}
use corrigenda.Editing.Anchor.{normalize_anchor}
use corrigenda.Editing.Occurrences.{normalize_anchor-IsRangeOf}
use corrigenda.Editing.Drift.{has_line_separator}
use corrigenda.Editing.Line.{
  Spans, sort_asc, apply_spans, accept_spans, check_growth, check_span, add_checked,
  normalize_spans,
}
use corrigenda.Editing.Splice.{InBounds, Apart, weave, All-sort_asc, apply_spans-eq-weave}
use corrigenda.Editing.Cover.{
  Covers, Same, sort_asc-Same, sort_asc-Ascends, accept_spans-Covers, All-accept_spans,
}

Checked-cases {ℓ} :
    {A : Type ℓ} (c : Checked A) → ((a : A) × (c ≡ accepted a)) ⊎ ((r : Reason) × (c ≡ refused r))
Checked-cases (accepted a) = inl (a, refl)
Checked-cases (refused r) = inr (r, refl)

module _ (fl : Floats) (guard : GuardConfig fl) where
  -- The replacement that an operation asks for, where it is in order by itself: the range that its
  -- anchor names and its own text, which is one line and not too long for the range.
  pub record Wants (canonical : Text) (s : Range × Text) (op : SpanOp) : Type 0 where
    pub anchored : normalize_anchor op.anchor canonical ≡ accepted s.0
    pub own_text : s.1 ≡ op.text
    pub is_one_line : has_line_separator op.text ≡ false
    pub not_grown :
        fl.lt
          (fl.mul guard.edit_span_max_growth_ratio (fl.of_ℤ (pos (max 1 (s.0.end - s.0.start)))))
          (fl.of_ℤ (pos (length op.text)))
        ≡ false

  -- A span that some operation asks for.
  abbrev pub IsWanted : Text → List SpanOp → Range × Text → Type 0
  IsWanted canonical ops s = Any (Wants canonical s) ops

  -- What an operation asks for stands, or a span that stands begins no later and overlaps it.
  abbrev pub IsMet : Text → Spans → SpanOp → Type 0
  IsMet canonical spans op = (s : Range × Text) → Wants canonical s op → Any (Covers s) spans

  -- The spans that stand, of those that the operations ask for: they are apart, and no operation is
  -- left out but for one that stands and comes before it.
  pub record Standing (canonical : Text) (ops : List SpanOp) (spans : Spans) : Type 0 where
    pub wanted : All (IsWanted canonical ops) spans
    pub apart : Apart (length canonical) 0 0 spans
    pub met : All (IsMet canonical spans) ops

  check_span-Wants :
      (canonical : Text) (op : SpanOp) (s : Range × Text)
      → check_span fl guard canonical op ≡ accepted s
      → Wants canonical s op
  unfolding check_span check_growth
  check_span-Wants canonical op s h = elim (Checked-cases (normalize_anchor op.anchor canonical)) [
    | inl (r, e) ↦
        let here : r ≡ s.0 = ground (arith, e) in
        record {
          anchored = e ∙ ap accepted here;
          own_text = ground (arith, e);
          is_one_line = ground (arith, e);
          not_grown = rw (← here) (ground (arith, e));
        }
    | inr (q, e) ↦ absurd (ground (arith, e))
  ]

  Wants-check_span :
      (canonical : Text) (op : SpanOp) (r : Range) (t : Text)
      → Wants canonical (r, t) op
      → check_span fl guard canonical op ≡ accepted (r, t)
  unfolding check_span check_growth
  Wants-check_span canonical op r t w =
      rw (w.is_one_line, w.anchored, w.not_grown) (ap (λ u. accepted (r, u)) (sym w.own_text))

  add_checked-All {ℓ} :
      (P : Range × Text → Type ℓ) (line_id : String) (c : Checked (Range × Text))
      (acc : List EditRejection × Spans)
      → ((s : Range × Text) → c ≡ accepted s → P s)
      → All P acc.1
      → All P (add_checked fl guard line_id c acc).1
  unfolding add_checked
  add_checked-All P line_id (accepted s) acc h hs = (h s refl, hs)
  add_checked-All P line_id (refused r) acc h hs = hs

  IsWanted-later :
      (canonical : Text) (op : SpanOp) (ops : List SpanOp) (spans : Spans)
      → All (IsWanted canonical ops) spans
      → All (IsWanted canonical (op ∷ ops)) spans
  IsWanted-later canonical op ops [] h = tt
  IsWanted-later canonical op ops (s ∷ spans) (h, hs) =
      (inr h, IsWanted-later canonical op ops spans hs)

  normalize_spans-IsWanted :
      (line_id : String) (canonical : Text) (ops : List SpanOp)
      → All (IsWanted canonical ops) (normalize_spans fl guard line_id canonical ops).1
  unfolding normalize_spans
  normalize_spans-IsWanted line_id canonical [] = tt
  normalize_spans-IsWanted line_id canonical (op ∷ ops) =
      add_checked-All (IsWanted canonical (op ∷ ops)) line_id _ _
        (λ s e. inl (check_span-Wants canonical op s e))
        (IsWanted-later canonical op ops _ (normalize_spans-IsWanted line_id canonical ops))

  -- What an operation asks for is in the list.
  abbrev IsListed : Text → Spans → SpanOp → Type 0
  IsListed canonical spans op = (s : Range × Text) → Wants canonical s op → Any (Same s) spans

  add_checked-Same :
      (line_id : String) (c : Checked (Range × Text)) (acc : List EditRejection × Spans)
      (s : Range × Text)
      → (c ≡ accepted s) ⊎ Any (Same s) acc.1
      → Any (Same s) (add_checked fl guard line_id c acc).1
  unfolding add_checked
  add_checked-Same line_id (accepted x) acc s (inl e) = inl (ground (arith, e))
  add_checked-Same line_id (accepted x) acc s (inr h) = inr h
  add_checked-Same line_id (refused r) acc s (inl e) = absurd (ground (arith, e))
  add_checked-Same line_id (refused r) acc s (inr h) = h

  IsListed-later :
      (line_id : String) (canonical : Text) (c : Checked (Range × Text))
      (acc : List EditRejection × Spans) (ops : List SpanOp)
      → All (IsListed canonical acc.1) ops
      → All (IsListed canonical (add_checked fl guard line_id c acc).1) ops
  IsListed-later line_id canonical c acc [] h = tt
  IsListed-later line_id canonical c acc (op ∷ ops) (h, hs) = (
    λ s w. add_checked-Same line_id c acc s (inr (h s w)),
    IsListed-later line_id canonical c acc ops hs,
  )

  normalize_spans-IsListed :
      (line_id : String) (canonical : Text) (ops : List SpanOp)
      → All (IsListed canonical (normalize_spans fl guard line_id canonical ops).1) ops
  unfolding normalize_spans
  normalize_spans-IsListed line_id canonical [] = tt
  normalize_spans-IsListed line_id canonical (op ∷ ops) = (
    λ s w. add_checked-Same line_id _ _ s (inl (Wants-check_span canonical op s.0 s.1 w)),
    IsListed-later line_id canonical _ _ ops (normalize_spans-IsListed line_id canonical ops),
  )

  IsMet-sorted :
      (canonical : Text) (spans : Spans) (ops : List SpanOp)
      → All (IsListed canonical spans) ops
      → All (IsMet canonical (accept_spans none (sort_asc spans))) ops
  IsMet-sorted canonical spans [] h = tt
  IsMet-sorted canonical spans (op ∷ ops) (h, hs) = (
    λ s w.
        elim (accept_spans-Covers none s (sort_asc spans) (sort_asc-Ascends spans) tt
          (sort_asc-Same s spans (h s w))) [ inl p ↦ p | inr p ↦ absurd p ],
    IsMet-sorted canonical spans ops hs,
  )

  IsWanted-InBounds :
      (canonical : Text) (s : Range × Text) (ops : List SpanOp)
      → IsWanted canonical ops s
      → InBounds (length canonical) s
  IsWanted-InBounds canonical s [] h = absurd h
  IsWanted-InBounds canonical s (op ∷ ops) (inl w) =
      let r = normalize_anchor-IsRangeOf op.anchor canonical s.0 w.anchored in
      record { ordered = r.ordered; within = r.within }
  IsWanted-InBounds canonical s (op ∷ ops) (inr h) = IsWanted-InBounds canonical s ops h

  All-InBounds :
      (canonical : Text) (ops : List SpanOp) (spans : Spans)
      → All (IsWanted canonical ops) spans
      → All (InBounds (length canonical)) spans
  All-InBounds canonical ops [] h = tt
  All-InBounds canonical ops (s ∷ spans) (h, hs) =
      (IsWanted-InBounds canonical s ops h, All-InBounds canonical ops spans hs)

  -- The spans that the two loops of the source let through stand, and they are put in right to left
  -- as they would be all at once.
  pub accept_spans-Standing :
      (line_id : String) (canonical : Text) (ops : List SpanOp)
      → let kept =
          accept_spans none (sort_asc (normalize_spans fl guard line_id canonical ops).1) in
        Standing canonical ops kept × (apply_spans canonical kept ≡ weave 0 canonical kept)
  accept_spans-Standing line_id canonical ops =
      let found = (normalize_spans fl guard line_id canonical ops).1 in
      let wanted = normalize_spans-IsWanted line_id canonical ops in
      let p = apply_spans-eq-weave canonical found (All-InBounds canonical ops found wanted) in
      (
        record {
          wanted =
              All-accept_spans (IsWanted canonical ops) none (sort_asc found)
                (All-sort_asc (IsWanted canonical ops) found wanted);
          apart = p.1;
          met = IsMet-sorted canonical found ops (normalize_spans-IsListed line_id canonical ops);
        },
        p.0,
      )
