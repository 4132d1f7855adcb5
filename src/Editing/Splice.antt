-- ===== src/Editing/Splice.antt =====
-- `_apply_spans` of core/editing.py, right to left, against the replacement of all spans at once.
use mathlib.Core.Path.{ap₂}
use corrigenda.Base.{
  ℕ, zero, suc, ◌-◌, ◌≤◌, ◌<◌, false, ◌≡◌, refl, sym, ap, ◌∙◌, Option, none, some, [], ◌∷◌, ◌++◌,
  Text, length, take, drop, take-append-drop, slice, All, arith, append_assoc, Bool-cases, inl, inr,
  leb,
}
use corrigenda.Editing.Ops.{Range}
use corrigenda.Editing.Line.{
  Spans, put_span, insert_desc, sort_desc, put_all, apply_spans, key_le, insert_asc, sort_asc,
  overlaps, accept_spans,
}

-- The text from `lo` on, with every span replaced where it stands in the original: the
-- specification.
pub weave : ℕ → Text → Spans → Text
weave lo text [] = drop lo text
weave lo text ((r, new) ∷ rest) = slice lo r.start text ++ (new ++ weave r.end text rest)

-- A span that lies in a text of `n` characters.
pub record InBounds (n : ℕ) (s : Range × Text) : Type 0 where
  pub ordered : s.0.start ≤ s.0.end
  pub within : s.0.end ≤ n

-- Spans in ascending order that share neither characters nor a start; none begins before `lo`
-- or `next`.
abbrev pub Apart : ℕ → ℕ → ℕ → Spans → Type 0
Apart n lo next [] = Unit
Apart n lo next ((r, new) ∷ rest) =
    (lo ≤ r.start)
    × (next ≤ r.start)
    × (r.start ≤ r.end)
    × (r.end ≤ n)
    × Apart n r.end (suc r.start) rest

abbrev end_of : Option Range → ℕ
end_of none = 0
end_of (some r) = r.end

abbrev next_of : Option Range → ℕ
next_of none = 0
next_of (some r) = suc r.start

abbrev IsOrdered : Option Range → Type 0
IsOrdered none = Unit
IsOrdered (some r) = r.start ≤ r.end

overlaps-false :
    (prev : Option Range) (r : Range)
    → IsOrdered prev
    → overlaps prev r ≡ false
    → (end_of prev ≤ r.start) × (next_of prev ≤ r.start)
unfolding overlaps
overlaps-false none r o h = omega arith
overlaps-false (some q) r o h = ground arith

-- The spans that the loop accepts do not overlap.
pub accept_spans-Apart :
    (n : ℕ) (prev : Option Range) (spans : Spans)
    → IsOrdered prev
    → All (InBounds n) spans
    → Apart n (end_of prev) (next_of prev) (accept_spans prev spans)
unfolding accept_spans
accept_spans-Apart n prev [] o h = tt
accept_spans-Apart n prev ((r, new) ∷ rest) o (b, bs) = elim (Bool-cases (overlaps prev r)) [
  | inl e ↦ rw e (accept_spans-Apart n prev rest o bs)
  | inr e ↦ rw e (
    (overlaps-false prev r o e).0,
    (overlaps-false prev r o e).1,
    b.ordered,
    b.within,
    accept_spans-Apart n (some r) rest b.ordered bs,
  )
]

-- Right to left, one span at a time.
put_right : Spans → Text → Text
put_right [] text = text
put_right (s ∷ rest) text = put_span s (put_right rest text)

put_all-append : (a b : Spans) (text : Text) → put_all (a ++ b) text ≡ put_all b (put_all a text)
unfolding put_all
put_all-append [] b text = refl
put_all-append (s ∷ a) b text = put_all-append a b (put_span s text)

abbrev StartsAfter : ℕ → Range × Text → Type 0
StartsAfter k s = k < s.0.start

-- A span that starts before all others goes to the end of the descending order.
insert_desc-last :
    (s : Range × Text) (l : Spans) → All (StartsAfter s.0.start) l → insert_desc s l ≡ l ++ s ∷ []
unfolding insert_desc
insert_desc-last (r, t) [] h = refl
insert_desc-last (r, t) ((q, u) ∷ l) (h, hs) = ground (arith, insert_desc-last (r, t) l)

All-insert_desc {ℓ} :
    (P : Range × Text → Type ℓ) (s : Range × Text) (l : Spans)
    → P s
    → All P l
    → All P (insert_desc s l)
unfolding insert_desc
All-insert_desc P (r, t) [] p h = (p, tt)
All-insert_desc P (r, t) ((q, u) ∷ l) p (h, hs) = elim (Bool-cases (leb q.start r.start)) [
  | inl e ↦ rw e (p, (h, hs))
  | inr e ↦ rw e (h, All-insert_desc P (r, t) l p hs)
]

All-sort_desc {ℓ} : (P : Range × Text → Type ℓ) (l : Spans) → All P l → All P (sort_desc l)
unfolding sort_desc
All-sort_desc P [] h = tt
All-sort_desc P (s ∷ l) (h, hs) = All-insert_desc P s (sort_desc l) h (All-sort_desc P l hs)

All-insert_asc {ℓ} :
    (P : Range × Text → Type ℓ) (s : Range × Text) (l : Spans)
    → P s
    → All P l
    → All P (insert_asc s l)
unfolding insert_asc
All-insert_asc P (r, t) [] p h = (p, tt)
All-insert_asc P (r, t) ((q, u) ∷ l) p (h, hs) = elim (Bool-cases (key_le r q)) [
  | inl e ↦ rw e (p, (h, hs))
  | inr e ↦ rw e (h, All-insert_asc P (r, t) l p hs)
]

pub All-sort_asc {ℓ} : (P : Range × Text → Type ℓ) (l : Spans) → All P l → All P (sort_asc l)
unfolding sort_asc
All-sort_asc P [] h = tt
All-sort_asc P (s ∷ l) (h, hs) = All-insert_asc P s (sort_asc l) h (All-sort_asc P l hs)

Apart-StartsAfter :
    (n lo next k : ℕ) (spans : Spans) → k < next → Apart n lo next spans → All (StartsAfter k) spans
Apart-StartsAfter n lo next k [] h a = tt
Apart-StartsAfter n lo next k ((r, t) ∷ rest) h a =
    (omega arith, Apart-StartsAfter n r.end (suc r.start) k rest (omega arith) a.4)

-- The descending sort of spans that ascend turns them round.
apply_spans-eq-put_right :
    (n lo next : ℕ) (spans : Spans) (text : Text)
    → Apart n lo next spans
    → apply_spans text spans ≡ put_right spans text
unfolding apply_spans put_right
apply_spans-eq-put_right n lo next [] text a = refl
apply_spans-eq-put_right n lo next ((r, t) ∷ rest) text a =
    ap (λ l. put_all l text)
      (insert_desc-last (r, t) (sort_desc rest)
        (All-sort_desc (StartsAfter r.start) rest
          (Apart-StartsAfter n r.end (suc r.start) r.start rest (omega arith) a.4)))
    ∙ put_all-append (sort_desc rest) ((r, t) ∷ []) text
    ∙ ap (put_span (r, t)) (apply_spans-eq-put_right n r.end (suc r.start) rest text a.4)

take_within : (i k : ℕ) (s w : Text) → i ≤ k → k ≤ length s → take i (take k s ++ w) ≡ take i s
take_within zero k s w h b = refl
take_within (suc i) zero s w h b = absurd (omega arith)
take_within (suc i) (suc k) [] w h b = absurd (omega arith)
take_within (suc i) (suc k) (c ∷ s) w h b =
    ap (λ t. c ∷ t) (take_within i k s w (omega arith) (omega arith))

drop_beyond : (k : ℕ) (s w : Text) → k ≤ length s → drop k (take k s ++ w) ≡ w
drop_beyond zero s w b = refl
drop_beyond (suc k) [] w b = absurd (omega arith)
drop_beyond (suc k) (c ∷ s) w b = drop_beyond k s w (omega arith)

take-nil : (k : ℕ) → take {A = ℕ} k [] ≡ []
take-nil zero = refl
take-nil (suc k) = refl

take-slice : (lo i : ℕ) (s : Text) → lo ≤ i → take i s ≡ take lo s ++ slice lo i s
unfolding slice
take-slice zero i s h = ap (λ k. take k s) (omega arith)
take-slice (suc lo) zero s h = absurd (omega arith)
take-slice (suc lo) (suc i) [] h = sym (take-nil (suc i - suc lo))
take-slice (suc lo) (suc i) (c ∷ s) h =
    let e : suc i - suc lo ≡ i - lo = omega arith in
    rw e (ap (λ t. c ∷ t) (take-slice lo i s (omega arith)))

-- What stands before `lo` is untouched, and the rest is woven.
put_right-eq-weave :
    (lo next : ℕ) (spans : Spans) (text : Text)
    → lo ≤ length text
    → Apart (length text) lo next spans
    → put_right spans text ≡ take lo text ++ weave lo text spans
unfolding put_right weave put_span
put_right-eq-weave lo next [] text b a = sym (take-append-drop lo text)
put_right-eq-weave lo next ((r, t) ∷ rest) text b a =
    woven (put_right-eq-weave r.end (suc r.start) rest text a.3 a.4)
  where
    woven :
        put_right rest text ≡ take r.end text ++ weave r.end text rest
        → put_span (r, t) (put_right rest text)
          ≡ take lo text ++ (slice lo r.start text ++ (t ++ weave r.end text rest))
    woven ih =
        ap (put_span (r, t)) ih
        ∙ ap₂ (λ u v. u ++ (t ++ v))
            (take_within r.start r.end text (weave r.end text rest) a.2 a.3
              ∙ take-slice lo r.start text a.0)
            (drop_beyond r.end text (weave r.end text rest) a.3)
        ∙ append_assoc (take lo text) (slice lo r.start text) (t ++ weave r.end text rest)

-- Applying the spans that the loop accepted, right to left, is replacing all of them at once where
-- they stand in the canonical text: for any spans that lie in it, in whatever order they came, the
-- result is the text between them, unchanged, with each replacement in its place.
pub apply_spans-eq-weave :
    (text : Text) (spans : Spans)
    → All (InBounds (length text)) spans
    → let kept = accept_spans none (sort_asc spans) in
      (apply_spans text kept ≡ weave 0 text kept) × Apart (length text) 0 0 kept
apply_spans-eq-weave text spans h =
    let kept = accept_spans none (sort_asc spans) in
    let apart : Apart (length text) 0 0 kept =
      accept_spans-Apart (length text) none (sort_asc spans) tt
        (All-sort_asc (InBounds (length text)) spans h) in
    (
      apply_spans-eq-put_right (length text) 0 0 kept text apart
          ∙ put_right-eq-weave 0 0 kept text (omega arith) apart,
      apart,
    )
