-- ===== src/LineAcceptance/Stores.antt =====
-- The lines of a page beside the lines that were made of them, and what a lookup finds in either.
use corrigenda.Base.{
  ◌≡◌, refl, sym, ap, ◌∙◌, true, Option, some, List, [], ◌∷◌, String, str_eq, inl, inr, Bool-cases,
  if◌then◌else◌, arith, eq_iff, Option-cases,
}
use mathlib.Core.Option.{some-injective}
use mathlib.Core.Path.{subst}
use corrigenda.Manifest.{LineManifest, truthy}
use corrigenda.Reconcile.{is_fallback}
use corrigenda.LineAcceptance.{line_at, put_at, has_fallen, text_of, neighbour_text}

-- The two lists are equally long and related place by place.
abbrev pub Beside :
    (LineManifest → LineManifest → Type 0) → List LineManifest → List LineManifest → Type 0
Beside R [] [] = Unit
Beside R [] (a ∷ after) = ⊥
Beside R (b ∷ before) [] = ⊥
Beside R (b ∷ before) (a ∷ after) = R b a × Beside R before after

-- What no decision changes in a line.
pub record IsSameLine (b a : LineManifest) : Type 0 where
  pub same_id : a.line_id ≡ b.line_id
  pub same_source : a.ocr_text ≡ b.ocr_text
  pub still_fallen : is_fallback b.status ≡ true → is_fallback a.status ≡ true

-- What a place of the first list holds for one identifier, the second holds beside it.
pub record Found (R : LineManifest → LineManifest → Type 0) (a : LineManifest)
    (before : Option LineManifest) : Type 0 where
  pub line : LineManifest
  pub is_found : before ≡ some line
  pub related : R line a

pub Beside-refl :
    (R : LineManifest → LineManifest → Type 0)
    → ((lm : LineManifest) → R lm lm)
    → (lines : List LineManifest) → Beside R lines lines
Beside-refl R same [] = tt
Beside-refl R same (lm ∷ lines) = (same lm, Beside-refl R same lines)

module _ (R : LineManifest → LineManifest → Type 0)
    (keeps : (b a : LineManifest) → R b a → IsSameLine b a) where
  same_test : (i : String) (b a : LineManifest) → R b a → str_eq a.line_id i ≡ str_eq b.line_id i
  same_test i b a r = ap (λ t. str_eq t i) (keeps b a r).same_id

  pub line_at-Found :
      (i : String) (a : LineManifest) (before after : List LineManifest)
      → Beside R before after
      → line_at i after ≡ some a
      → Found R a (line_at i before)
  unfolding line_at
  line_at-Found i a [] [] rel e = absurd (cc)
  line_at-Found i a [] (x ∷ after) rel e = absurd rel
  line_at-Found i a (b ∷ before) [] rel e = absurd rel
  line_at-Found i a (b ∷ before) (x ∷ after) rel e = elim (Bool-cases (str_eq b.line_id i)) [
    | inl here ↦
        let same = same_test i b x rel.0 ∙ here in
        record {
          line = b;
          is_found = rw here refl;
          related = subst (λ t. R b t) (some-injective _ _ (sym (rw same refl) ∙ e)) rel.0;
        }
    | inr other ↦
        let same = same_test i b x rel.0 ∙ other in
        rw other (line_at-Found i a before after rel.1 (sym (rw same refl) ∙ e))
  ]

  pub put_at-Beside :
      (i : String) (new a : LineManifest) (before after : List LineManifest)
      → Beside R before after
      → line_at i after ≡ some a
      → ((b : LineManifest) → line_at i before ≡ some b → R b a → R b new)
      → Beside R before (put_at i new after)
  unfolding line_at put_at
  put_at-Beside i new a [] [] rel e step = absurd (cc)
  put_at-Beside i new a [] (x ∷ after) rel e step = absurd rel
  put_at-Beside i new a (b ∷ before) [] rel e step = absurd rel
  put_at-Beside i new a (b ∷ before) (x ∷ after) rel e step =
      elim (Bool-cases (str_eq b.line_id i)) [
        | inl here ↦
            let same = same_test i b x rel.0 ∙ here in
            let is_a = some-injective _ _ (sym (rw same refl) ∙ e) in
            rw same (step b (rw here refl) (subst (λ t. R b t) is_a rel.0), rel.1)
        | inr other ↦
            let same = same_test i b x rel.0 ∙ other in
            rw same (
              rel.0,
              put_at-Beside i new a before after rel.1 (sym (rw same refl) ∙ e)
                  (λ l found. step l (rw other found)),
            )
      ]

  text_of-line_at :
      (i : String) (before after : List LineManifest)
      → Beside R before after
      → text_of (line_at i after) ≡ text_of (line_at i before)
  unfolding line_at text_of
  text_of-line_at i [] [] rel = refl
  text_of-line_at i [] (x ∷ after) rel = absurd rel
  text_of-line_at i (b ∷ before) [] rel = absurd rel
  text_of-line_at i (b ∷ before) (x ∷ after) rel = elim (Bool-cases (str_eq b.line_id i)) [
    | inl here ↦ rw (here, same_test i b x rel.0 ∙ here) (ap some (keeps b x rel.0).same_source)
    | inr other ↦ rw (other, same_test i b x rel.0 ∙ other) (text_of-line_at i before after rel.1)
  ]

  pub neighbour_text-Beside :
      (i : Option String) (before after : List LineManifest)
      → Beside R before after
      → neighbour_text i after ≡ neighbour_text i before
  unfolding neighbour_text
  neighbour_text-Beside i before after rel = elim (Option-cases (truthy i)) [
    | inl absent ↦ rw (absent, neighbour_text) refl
    | inr (j, named) ↦ rw (named, neighbour_text) (text_of-line_at j before after rel)
  ]

  pub has_fallen-line_at :
      (i : String) (before after : List LineManifest)
      → Beside R before after
      → has_fallen (line_at i before) ≡ true
      → has_fallen (line_at i after) ≡ true
  unfolding line_at has_fallen
  has_fallen-line_at i [] [] rel e = e
  has_fallen-line_at i [] (x ∷ after) rel e = absurd rel
  has_fallen-line_at i (b ∷ before) [] rel e = absurd rel
  has_fallen-line_at i (b ∷ before) (x ∷ after) rel e = elim (Bool-cases (str_eq b.line_id i)) [
    | inl here ↦
        rw (same_test i b x rel.0 ∙ here) ((keeps b x rel.0).still_fallen (sym (rw here refl) ∙ e))
    | inr other ↦
        rw (same_test i b x rel.0 ∙ other)
          (has_fallen-line_at i before after rel.1 (sym (rw other refl) ∙ e))
  ]

-- A line that was put stands at its identifier, and the others stand where they stood.
pub line_at-put_at :
    (i j : String) (new old : LineManifest) (lines : List LineManifest)
    → new.line_id ≡ j
    → line_at j lines ≡ some old
    → line_at i (put_at j new lines) ≡ (if str_eq j i then some new else line_at i lines)
unfolding line_at put_at
line_at-put_at i j new old [] same e = absurd (cc)
line_at-put_at i j new old (x ∷ lines) same e = ground (
  arith,
  eq_iff x.line_id j,
  eq_iff x.line_id i,
  eq_iff j i,
  eq_iff new.line_id i,
  line_at-put_at i j new old lines same,
)
