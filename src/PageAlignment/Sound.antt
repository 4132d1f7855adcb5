-- ===== src/PageAlignment/Sound.antt =====
-- `align_page_lines` of core/page_alignment.py as a whole.
use corrigenda.Base.{
  Option-cases, ◌-◌, ℕ, suc, ◌-◌, ◌<◌, ◌≡◌, refl, ap, ◌∙◌, inl, inr, not, ◌&&◌, Option, none, some,
  List, [], ◌∷◌, Text, length, get_elem?, ltb, arith,
}
use corrigenda.Alignment.Ends.{Reads}
use corrigenda.Alignment.{TokenAlignment, align_tokens, Scale, sim_at}
use corrigenda.Alignment.Best.{align_tokens-Reads}
use corrigenda.PageAlignment.{
  line_similarity, PageLineAlignment, unmatched_list, match_pairs, claimed_by, index_in,
  page_alignment, align_page_lines,
}
use corrigenda.PageAlignment.Matched.{
  IsInOrder, is_answer, answers, match_pairs-answers, answers-IsInOrder, is_answer-claimed,
  length-answers, index_in-unclaimed_from,
}
use corrigenda.PageAlignment.Resembles.{Resembles, line_similarity-Resembles}

IsInOrder-map :
    (P Q : ℕ → ℕ → Type 0) (m i j : ℕ) (matched : List (Option ℕ))
    → ((a b : ℕ) → P a b → Q a b)
    → IsInOrder P m i j matched
    → IsInOrder Q m i j matched
IsInOrder-map P Q m i j [] f p = tt
IsInOrder-map P Q m i j (none ∷ matched) f p = IsInOrder-map P Q m (suc i) j matched f p
IsInOrder-map P Q m i j (some k ∷ matched) f p =
    (p.0, p.1, f i k p.2, IsInOrder-map P Q m (suc i) (suc k) matched f p.3)

-- The `i`-th source line and the `j`-th returned one are there and resemble one another.
abbrev pub Answers : List Text → List Text → ℕ → ℕ → Type 0
Answers source returned i j =
    (s : Text) × (t : Text) × (get_elem? source i ≡ some s)
    × (get_elem? returned j ≡ some t)
    × Resembles s t

module _ (scale : Scale) (source returned : List Text) where
  abbrev sim : ℕ → ℕ → ℕ
  sim = sim_at scale (line_similarity scale.one) source returned

  sim-Answers : (i j : ℕ) → 0 < sim i j → Answers source returned i j
  unfolding sim_at
  sim-Answers i j h = elim (Option-cases (get_elem? source i)) [
    | inl gone ↦ let z : 0 < 0 = rw (gone, sim_at) at h in absurd (omega arith)
    | inr (s, is_s) ↦ elim (Option-cases (get_elem? returned j)) [
      | inl gone ↦ let z : 0 < 0 = rw (is_s, gone, sim_at) at h in absurd (omega arith)
      | inr (t, is_t) ↦
          let z : 0 < line_similarity scale.one s t = rw (is_s, is_t, sim_at) at h in
          (s, t, is_s, is_t, line_similarity-Resembles scale.one s t z)
    ]
  ]

  page_found :
      (band : ℕ) (alignment : TokenAlignment)
      → align_tokens scale (line_similarity scale.one) source returned (some band) ≡ some alignment
      → align_page_lines scale source returned band
        ≡ some (page_alignment source returned alignment)
  unfolding align_page_lines
  page_found band alignment found =
      ap (λ t. elim t [ none ↦ none | some al ↦ some (page_alignment source returned al) ]) found

  module _ (alignment : TokenAlignment)
      (reads : Reads (length source) (length returned) sim 0 0 alignment.pairs) where
    page_matched : (page_alignment source returned alignment).matched ≡ answers alignment.pairs
    unfolding page_alignment
    page_matched =
        ap (λ t. match_pairs alignment.pairs (unmatched_list t)) {y = length source - 0}
          (omega arith)
        ∙ match_pairs-answers (length source) (length returned) sim 0 0 alignment.pairs [] refl
            reads

    page_unclaimed :
        (j : ℕ)
        → index_in j (page_alignment source returned alignment).unclaimed
          ≡ (ltb j (length returned) && not (is_answer j (answers alignment.pairs)))
    unfolding page_alignment
    page_unclaimed j =
        rw (is_answer-claimed (length source) (length returned) sim 0 0 j alignment.pairs reads) (
          index_in-unclaimed_from (claimed_by alignment.pairs) (length returned) 0 j
          ∙ ap (λ t. t && not (index_in j (claimed_by alignment.pairs))) (ground arith))

  -- A page's lines are aligned whatever they are, where the tolerance is not 0. Each source line has
  -- one place in `matched`; the returned lines that answer come in the order of their source lines,
  -- none twice; a line is answered only by one whose token count is within MERGE_SLACK_TOKENS of its
  -- own and with which it shares a token, unless both are blank; and `unclaimed` has exactly the
  -- returned lines that answer none.
  pub align_page_lines-IsSound :
      (band : ℕ)
      → 0 < scale.tolerance
      → (a : PageLineAlignment) × (align_page_lines scale source returned band ≡ some a)
        × (length a.matched ≡ length source)
        × IsInOrder (Answers source returned) (length returned) 0 0 a.matched
        × ((j : ℕ)
            → index_in j a.unclaimed ≡ (ltb j (length returned) && not (is_answer j a.matched)))
  align_page_lines-IsSound band positive =
      let (alignment, found, reads) =
        align_tokens-Reads scale (line_similarity scale.one) source returned (some band) positive in
      let e = page_matched alignment reads in
      (
        page_alignment source returned alignment,
        page_found band alignment found,
        ap length e
            ∙ omega (
              arith,
              length-answers (length source) (length returned) sim 0 0 alignment.pairs reads,
            ),
        rw e (
            IsInOrder-map _ _ (length returned) 0 0 (answers alignment.pairs)
              (λ a b h. sim-Answers a b h)
              (answers-IsInOrder (length source) (length returned) sim 0 0 alignment.pairs reads)),
        λ j. rw e (page_unclaimed alignment reads j),
      )
