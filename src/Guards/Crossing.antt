-- ===== src/Guards/Crossing.antt =====
-- What core/guards.py takes for a word that crossed the seam of two adjacent lines.
use corrigenda.Base.{
  Bool, true, false, not, ◌||◌, ◌&&◌, ◌≡◌, refl, sym, ◌∙◌, inl, inr, Option, none, some, Text, ◌++◌,
  words, is_empty, text_eq, Bool-cases, Option-cases, arith,
}
use corrigenda.Floats.{Floats, Unicode}
use corrigenda.Policies.{GuardConfig}
use corrigenda.Marks.{last_word}
use corrigenda.Hyphenation.{first_word, both_words}
use corrigenda.Guards.{
  SegmentLine, similarity, gt, word_migrated, word_crossed, seam_reason, migration,
}

-- The words at the seam: the last one of the first line and the first one of the second, in the
-- source and in the correction.
abbrev pub LastWord : Text → Text → Type 0
LastWord s w = last_word (words s) ≡ some w

abbrev pub FirstWord : Text → Text → Type 0
FirstWord s w = first_word (words s) ≡ some w

all_pass :
    (e1 e2 e3 same near nearer : Bool)
    → e1 ≡ false
    → e2 ≡ false
    → e3 ≡ false
    → same ≡ false
    → near ≡ true
    → nearer ≡ true
    → (not (e1 || e2 || e3) && not same && near && nearer) ≡ true
all_pass e1 e2 e3 same near nearer h1 h2 h3 h4 h5 h6 = ground arith

is_given : Option Text → Bool
is_given none = false
is_given (some t) = true

module _ (fl : Floats) (config : GuardConfig fl) where
  -- A word that was completed with the fragment across the seam: none of the words at it is empty, it
  -- differs from its source `own`,
  -- resembles the two sources `u` and `v` joined, and resembles them more than its own.
  pub record Completes (w own u v : Text) : Type 0 where
    pub not_empty : is_empty w ≡ false
    pub first_not_empty : is_empty u ≡ false
    pub second_not_empty : is_empty v ≡ false
    pub differs : text_eq w own ≡ false
    pub resembles : fl.lt config.absorption_concat_similarity (similarity fl w (u ++ v)) ≡ true
    pub resembles_more :
        fl.lt (fl.add (similarity fl w own) config.neighbour_margin) (similarity fl w (u ++ v))
        ≡ true

  module _ (uni : Unicode) where
    -- Two words that are the same but for case and normal form.
    abbrev pub Alike : Text → Text → Type 0
    Alike s t = text_eq (uni.ncfold s) (uni.ncfold t) ≡ true

    abbrev pub Unlike : Text → Text → Type 0
    Unlike s t = text_eq (uni.ncfold s) (uni.ncfold t) ≡ false

    -- A word crossed the seam of the lines `a` and `b`. The words `u` and `v` stand at it in the
    -- source.
    pub data Crossing (a b : SegmentLine) : Type 0 where
      pulled_up :
          (u v w : Text)
          → LastWord a.source u
          → FirstWord b.source v
          → LastWord a.corrected w
          → Completes w u u v
          → Crossing a b
      pulled_down :
          (u v w : Text)
          → LastWord a.source u
          → FirstWord b.source v
          → FirstWord b.corrected w
          → Completes w v u v
          → Crossing a b
      moved_up :
          (u v w x : Text)
          → LastWord a.source u
          → FirstWord b.source v
          → LastWord a.corrected w
          → FirstWord b.corrected x
          → Alike w v
          → Unlike w u
          → Unlike x v
          → Crossing a b
      moved_down :
          (u v w x : Text)
          → LastWord a.source u
          → FirstWord b.source v
          → LastWord a.corrected w
          → FirstWord b.corrected x
          → Alike x u
          → Unlike x v
          → Unlike w u
          → Crossing a b

    unfoldable pub has_migrated : SegmentLine → SegmentLine → Bool
    has_migrated a b = elim (migration fl config uni a b) [ none ↦ false | some reason ↦ true ]

  word_migrated-up :
      (w u v : Text) → word_migrated fl config w u v (u ++ v) ≡ true → Completes w u u v
  unfolding word_migrated gt
  word_migrated-up w u v h = record {
    not_empty = ground arith;
    first_not_empty = ground arith;
    second_not_empty = ground arith;
    differs = ground arith;
    resembles = ground arith;
    resembles_more = ground arith;
  }

  word_migrated-down :
      (w u v : Text) → word_migrated fl config w v u (u ++ v) ≡ true → Completes w v u v
  unfolding word_migrated gt
  word_migrated-down w u v h = record {
    not_empty = ground arith;
    first_not_empty = ground arith;
    second_not_empty = ground arith;
    differs = ground arith;
    resembles = ground arith;
    resembles_more = ground arith;
  }

  Completes-up : (w u v : Text) → Completes w u u v → word_migrated fl config w u v (u ++ v) ≡ true
  unfolding word_migrated gt
  Completes-up w u v c =
      all_pass _ _ _ _ _ _ c.not_empty c.first_not_empty c.second_not_empty c.differs c.resembles
        c.resembles_more

  Completes-down :
      (w u v : Text) → Completes w v u v → word_migrated fl config w v u (u ++ v) ≡ true
  unfolding word_migrated gt
  Completes-down w u v c =
      all_pass _ _ _ _ _ _ c.not_empty c.second_not_empty c.first_not_empty c.differs c.resembles
        c.resembles_more

  module _ (uni : Unicode) where
    word_crossed-Crossing :
        (a b : SegmentLine) (u v w x : Text)
        → LastWord a.source u
        → FirstWord b.source v
        → LastWord a.corrected w
        → FirstWord b.corrected x
        → word_crossed fl config uni (uni.ncfold u) (uni.ncfold w) (uni.ncfold v) (uni.ncfold x)
          ≡ true
        → Crossing uni a b
    unfolding word_crossed
    word_crossed-Crossing a b u v w x eu ev ew ex h =
        elim (Bool-cases (text_eq (uni.ncfold w) (uni.ncfold v))) [
          | inl same ↦ elim (Bool-cases (text_eq (uni.ncfold w) (uni.ncfold u))) [
            | inl kept ↦ absurd (ground arith)
            | inr other ↦ elim (Bool-cases (text_eq (uni.ncfold x) (uni.ncfold v))) [
              | inl stays ↦ absurd (ground arith)
              | inr gone ↦ moved_up u v w x eu ev ew ex same other gone
            ]
          ]
          | inr differ ↦ moved_down u v w x eu ev ew ex (ground arith) (ground arith) (ground arith)
        ]

    seam_reason-Crossing :
        (a b : SegmentLine) (u v : Text) (p q : Option Text)
        → LastWord a.source u
        → FirstWord b.source v
        → last_word (words a.corrected) ≡ p
        → first_word (words b.corrected) ≡ q
        → is_given (seam_reason fl config uni u v p q) ≡ true
        → Crossing uni a b
    unfolding seam_reason both_words is_given
    seam_reason-Crossing a b u v none none eu ev ep eq h = cc
    seam_reason-Crossing a b u v none (some x) eu ev ep eq h =
        pulled_down u v x eu ev eq (word_migrated-down x u v (ground arith))
    seam_reason-Crossing a b u v (some w) none eu ev ep eq h =
        pulled_up u v w eu ev ep (word_migrated-up w u v (ground arith))
    seam_reason-Crossing a b u v (some w) (some x) eu ev ep eq h =
        elim (Bool-cases (word_migrated fl config w u v (u ++ v))) [
          | inl e ↦ pulled_up u v w eu ev ep (word_migrated-up w u v e)
          | inr e ↦ elim (Bool-cases (word_migrated fl config x v u (u ++ v))) [
            | inl f ↦ pulled_down u v x eu ev eq (word_migrated-down x u v f)
            | inr f ↦ word_crossed-Crossing a b u v w x eu ev ep eq (ground arith)
          ]
        ]

    seam_reason-up :
        (u v w : Text) (q : Option Text)
        → word_migrated fl config w u v (u ++ v) ≡ true
        → is_given (seam_reason fl config uni u v (some w) q) ≡ true
    unfolding seam_reason is_given
    seam_reason-up u v w q h = ground arith

    seam_reason-down :
        (u v x : Text) (p : Option Text)
        → word_migrated fl config x v u (u ++ v) ≡ true
        → is_given (seam_reason fl config uni u v p (some x)) ≡ true
    unfolding seam_reason is_given
    seam_reason-down u v x p h = ground arith

    seam_reason-crossed :
        (u v w x : Text)
        → word_crossed fl config uni (uni.ncfold u) (uni.ncfold w) (uni.ncfold v) (uni.ncfold x)
          ≡ true
        → is_given (seam_reason fl config uni u v (some w) (some x)) ≡ true
    unfolding seam_reason is_given both_words
    seam_reason-crossed u v w x h = ground arith

    -- What the words of the two sources leave to decide.
    has_migrated-seam_reason :
        (a b : SegmentLine) (u v : Text)
        → LastWord a.source u
        → FirstWord b.source v
        → has_migrated uni a b
          ≡ is_given (
              seam_reason fl config uni u v
                (last_word (words a.corrected))
                (first_word (words b.corrected)))
    unfolding has_migrated migration is_given
    has_migrated-seam_reason a b u v eu ev = ground (arith, eu, ev)

    pub Crossing-has_migrated : (a b : SegmentLine) → Crossing uni a b → has_migrated uni a b ≡ true
    unfolding word_crossed
    Crossing-has_migrated a b (pulled_up u v w eu ev ew c) =
        has_migrated-seam_reason a b u v eu ev
        ∙ rw ew (seam_reason-up u v w _ (Completes-up w u v c))
    Crossing-has_migrated a b (pulled_down u v w eu ev ew c) =
        has_migrated-seam_reason a b u v eu ev
        ∙ rw ew (seam_reason-down u v w _ (Completes-down w u v c))
    Crossing-has_migrated a b (moved_up u v w x eu ev ew ex same other gone) =
        has_migrated-seam_reason a b u v eu ev
        ∙ rw (ew, ex) (seam_reason-crossed u v w x (ground arith))
    Crossing-has_migrated a b (moved_down u v w x eu ev ew ex same other gone) =
        has_migrated-seam_reason a b u v eu ev
        ∙ rw (ew, ex) (seam_reason-crossed u v w x (ground arith))

    has_migrated-words :
        (a b : SegmentLine)
        → has_migrated uni a b ≡ true
        → (u : Text) × (v : Text) × LastWord a.source u × FirstWord b.source v
    unfolding has_migrated migration
    has_migrated-words a b h = elim (Option-cases (last_word (words a.source))) [
      | inl e ↦ absurd (ground (arith, e))
      | inr (u, e) ↦ elim (Option-cases (first_word (words b.source))) [
        | inl f ↦ absurd (ground (arith, e, f))
        | inr (v, f) ↦ (u, v, e, f)
      ]
    ]

    pub has_migrated-Crossing : (a b : SegmentLine) → has_migrated uni a b ≡ true → Crossing uni a b
    has_migrated-Crossing a b h =
        let (u, v, e, f) = has_migrated-words a b h in
        seam_reason-Crossing a b u v _ _ e f refl refl
          (sym (has_migrated-seam_reason a b u v e f) ∙ h)
