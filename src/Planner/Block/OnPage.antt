-- ===== src/Planner/Block/OnPage.antt =====
-- Where the lines come from that `_try_block` of core/planner.py puts in a chunk.
use corrigenda.Base.{
  ℕ, suc, ◌≡◌, refl, inl, inr, some, List, [], ◌∷◌, String, str_eq, lookup, assign, get_elem?, All,
  All-append, arith, Bool-cases, Option-cases,
}
use corrigenda.Manifest.{LineManifest, BlockManifest, PageManifest}
use corrigenda.Planner.{index_by_id}
use corrigenda.Planner.Block.{line_of, block_lines, lines_by_block, lines_of_blocks}

-- A line of the page.
abbrev pub IsOnPage : PageManifest → LineManifest → Type 0
IsOnPage page lm = (k : ℕ) × (get_elem? page.lines k ≡ some lm)

module _ (page : PageManifest) where
  IsOnPage-line_of :
      (i : String) (lm : LineManifest) → line_of page.lines i ≡ some lm → IsOnPage page lm
  unfolding line_of
  IsOnPage-line_of i lm h = elim (Option-cases (index_by_id page.lines i)) [
    | inl e ↦ absurd (ground (arith, e))
    | inr (k, e) ↦ (k, ground (arith, e))
  ]

  IsOnPage-block_lines : (ids : List String) → All (IsOnPage page) (block_lines page.lines ids)
  unfolding block_lines
  IsOnPage-block_lines [] = tt
  IsOnPage-block_lines (i ∷ ids) = elim (Option-cases (line_of page.lines i)) [
    | inl e ↦ rw (e, block_lines) (IsOnPage-block_lines ids)
    | inr (lm, e) ↦ rw (e, block_lines) (IsOnPage-line_of i lm e, IsOnPage-block_lines ids)
  ]

  abbrev pub OnPage : String × List LineManifest → Type 0
  OnPage (i, lines) = All (IsOnPage page) lines

  OnPage-assign :
      (i : String) (lines : List LineManifest) (d : List (String × List LineManifest))
      → All (IsOnPage page) lines
      → All OnPage d
      → All OnPage (assign i lines d)
  unfolding assign
  OnPage-assign i lines [] h hs = (h, tt)
  OnPage-assign i lines ((j, old) ∷ d) h (o, hs) = elim (Bool-cases (str_eq j i)) [
    | inl e ↦ rw e (h, hs)
    | inr e ↦ rw e (o, OnPage-assign i lines d h hs)
  ]

  pub OnPage-lines_by_block :
      (bs : List BlockManifest) (acc : List (String × List LineManifest))
      → All OnPage acc
      → All OnPage (lines_by_block page.lines bs acc)
  unfolding lines_by_block
  OnPage-lines_by_block [] acc h = h
  OnPage-lines_by_block (b ∷ bs) acc h =
      OnPage-lines_by_block bs (assign b.block_id (block_lines page.lines b.line_ids) acc)
        (OnPage-assign b.block_id _ acc (IsOnPage-block_lines b.line_ids) h)

  OnPage-lookup :
      (i : String) (d : List (String × List LineManifest)) (lines : List LineManifest)
      → All OnPage d
      → lookup i d ≡ some lines
      → All (IsOnPage page) lines
  unfolding lookup
  OnPage-lookup i [] lines hs e = cc
  OnPage-lookup i ((j, here) ∷ d) lines (h, hs) e = elim (Bool-cases (str_eq j i)) [
    | inl s ↦ let same : here ≡ lines = ground (arith, s) in rw (← same) h
    | inr s ↦ OnPage-lookup i d lines hs (ground (arith, s))
  ]

  pub IsOnPage-lines_of_blocks :
      (d : List (String × List LineManifest)) (is : List String)
      → All OnPage d
      → All (IsOnPage page) (lines_of_blocks d is)
  unfolding lines_of_blocks
  IsOnPage-lines_of_blocks d [] h = tt
  IsOnPage-lines_of_blocks d (i ∷ is) h = elim (Option-cases (lookup i d)) [
    | inl e ↦ rw (e, lines_of_blocks) (IsOnPage-lines_of_blocks d is h)
    | inr (lines, e) ↦
        rw (e, lines_of_blocks)
          (All-append (IsOnPage page) lines _ (OnPage-lookup i d lines h e)
            (IsOnPage-lines_of_blocks d is h))
  ]

  pub IsOnPage-all :
      (lines : List LineManifest)
      → ((lm : LineManifest) (k : ℕ) → get_elem? lines k ≡ some lm → IsOnPage page lm)
      → All (IsOnPage page) lines
  IsOnPage-all [] f = tt
  IsOnPage-all (lm ∷ lines) f = (f lm 0 refl, IsOnPage-all lines (λ l k h. f l (suc k) h))
