-- ===== src/Editing/Cover.antt =====
-- The span operations of a line in core/editing.py (`_apply_line_ops`): the spans that the loop accepts, and
-- those that it passes over, which begin in one that it accepted.
use mathlib.Core.Path.{subst}
use corrigenda.Base.{
  ℕ, ◌≤◌, ◌<◌, true, false, ◌≡◌, ◌⊎◌, inl, inr, Option, none, some, [], ◌∷◌, Text, All, Any, arith,
  Bool-cases,
}
use corrigenda.Editing.Ops.{Range}
use corrigenda.Editing.Line.{Spans, key_le, insert_asc, sort_asc, overlaps, accept_spans}

-- A range that begins no later than another one and shares a character or its start with it.
abbrev pub Precedes : Range → Range → Type 0
Precedes q r = (q.start ≤ r.start) × ((r.start < q.end) ⊎ (r.start ≡ q.start))

-- A span that stands for another one: the same, or one that it would overlap.
abbrev pub Covers : Range × Text → Range × Text → Type 0
Covers s q = (q ≡ s) ⊎ Precedes q.0 s.0

abbrev pub Same : Range × Text → Range × Text → Type 0
Same s q = q ≡ s

abbrev StartsFrom : ℕ → Range × Text → Type 0
StartsFrom k s = k ≤ s.0.start

abbrev Ascends : Spans → Type 0
Ascends [] = Unit
Ascends (s ∷ rest) = All (StartsFrom s.0.start) rest × Ascends rest

StartsFrom-insert_asc :
    (k : ℕ) (s : Range × Text) (l : Spans)
    → k ≤ s.0.start
    → All (StartsFrom k) l
    → All (StartsFrom k) (insert_asc s l)
unfolding insert_asc
StartsFrom-insert_asc k (r, t) [] p h = (p, tt)
StartsFrom-insert_asc k (r, t) ((q, u) ∷ l) p (h, hs) = elim (Bool-cases (key_le r q)) [
  | inl e ↦ rw e (p, (h, hs))
  | inr e ↦ rw e (h, StartsFrom-insert_asc k (r, t) l p hs)
]

StartsFrom-weaken : (j k : ℕ) (l : Spans) → j ≤ k → All (StartsFrom k) l → All (StartsFrom j) l
StartsFrom-weaken j k [] h p = tt
StartsFrom-weaken j k (s ∷ l) h (p, ps) = (omega arith, StartsFrom-weaken j k l h ps)

key_le-start : (a b : Range) → key_le a b ≡ true → a.start ≤ b.start
unfolding key_le
key_le-start a b h = ground arith

not-key_le-start : (a b : Range) → key_le a b ≡ false → b.start ≤ a.start
unfolding key_le
not-key_le-start a b h = ground arith

insert_asc-Ascends : (s : Range × Text) (l : Spans) → Ascends l → Ascends (insert_asc s l)
unfolding insert_asc
insert_asc-Ascends (r, t) [] h = (tt, tt)
insert_asc-Ascends (r, t) ((q, u) ∷ l) (h, hs) = elim (Bool-cases (key_le r q)) [
  | inl e ↦
      rw e
        ((key_le-start r q e, StartsFrom-weaken r.start q.start l (key_le-start r q e) h), (h, hs))
  | inr e ↦ rw e (
    StartsFrom-insert_asc q.start (r, t) l (not-key_le-start r q e) h,
    insert_asc-Ascends (r, t) l hs,
  )
]

pub sort_asc-Ascends : (l : Spans) → Ascends (sort_asc l)
unfolding sort_asc
sort_asc-Ascends [] = tt
sort_asc-Ascends (s ∷ l) = insert_asc-Ascends s (sort_asc l) (sort_asc-Ascends l)

insert_asc-Same :
    (s x : Range × Text) (l : Spans) → (x ≡ s) ⊎ Any (Same s) l → Any (Same s) (insert_asc x l)
unfolding insert_asc
insert_asc-Same s (r, t) [] h = h
insert_asc-Same s (r, t) ((q, u) ∷ l) h = elim (Bool-cases (key_le r q)) [
  | inl e ↦ rw e h
  | inr e ↦ rw e (elim h [
    | inl p ↦ inr (insert_asc-Same s (r, t) l (inl p))
    | inr (inl p) ↦ inl p
    | inr (inr p) ↦ inr (insert_asc-Same s (r, t) l (inr p))
  ])
]

pub sort_asc-Same : (s : Range × Text) (l : Spans) → Any (Same s) l → Any (Same s) (sort_asc l)
unfolding sort_asc
sort_asc-Same s [] h = h
sort_asc-Same s (x ∷ l) (inl p) = insert_asc-Same s x (sort_asc l) (inl p)
sort_asc-Same s (x ∷ l) (inr p) = insert_asc-Same s x (sort_asc l) (inr (sort_asc-Same s l p))

abbrev Blocks : Option Range → Range → Type 0
Blocks none r = ⊥
Blocks (some q) r = Precedes q r

abbrev AllFrom : Option Range → Spans → Type 0
AllFrom none l = Unit
AllFrom (some q) l = All (StartsFrom q.start) l

AllFrom-tail :
    (prev : Option Range) (s : Range × Text) (l : Spans) → AllFrom prev (s ∷ l) → AllFrom prev l
AllFrom-tail none s l h = tt
AllFrom-tail (some q) s l h = h.1

overlaps-Blocks :
    (prev : Option Range) (s : Range × Text) (l : Spans)
    → AllFrom prev (s ∷ l)
    → overlaps prev s.0 ≡ true
    → Blocks prev s.0
unfolding overlaps
overlaps-Blocks none s l f h = cc
overlaps-Blocks (some q) s l f h = ground (arith, f.0)

-- A span of the ascending list is accepted, or one that was accepted before precedes it.
pub accept_spans-Covers :
    (prev : Option Range) (s : Range × Text) (l : Spans)
    → Ascends l
    → AllFrom prev l
    → Any (Same s) l
    → Any (Covers s) (accept_spans prev l) ⊎ Blocks prev s.0
unfolding accept_spans
accept_spans-Covers prev s [] a f h = absurd h
accept_spans-Covers prev s ((r, t) ∷ l) a f h = elim (Bool-cases (overlaps prev r)) [
  | inl e ↦ rw e (elim h [
    | inl p ↦ inr (subst (λ x. Blocks prev x.0) p (overlaps-Blocks prev (r, t) l f e))
    | inr p ↦ accept_spans-Covers prev s l a.1 (AllFrom-tail prev (r, t) l f) p
  ])
  | inr e ↦ rw e (elim h [
    | inl p ↦ inl (inl (inl p))
    | inr p ↦ elim (accept_spans-Covers (some r) s l a.1 a.0 p) [
      | inl q ↦ inl (inr q)
      | inr q ↦ inl (inl (inr q))
    ]
  ])
]

pub All-accept_spans {ℓ} :
    (P : Range × Text → Type ℓ) (prev : Option Range) (l : Spans)
    → All P l
    → All P (accept_spans prev l)
unfolding accept_spans
All-accept_spans P prev [] h = tt
All-accept_spans P prev ((r, t) ∷ l) (h, hs) = elim (Bool-cases (overlaps prev r)) [
  | inl e ↦ rw e (All-accept_spans P prev l hs)
  | inr e ↦ rw e (h, All-accept_spans P (some r) l hs)
]
