-- ===== src/Examples/Alignment.antt =====
-- Examples for Alignment and PageAlignment (core/alignment.py, core/page_alignment.py).
use corrigenda.Base.{
  ℕ, ◌≡◌, ◌≤◌, refl, false, not, ◌&&◌, none, some, List, [], ◌∷◌, Text, codes, ltb, length, arith,
}
use corrigenda.Alignment.{
  Scale, AlignedPair, TokenAlignment, align_tokens, sim_at, char_similarity, levenshtein, centre,
  round_div,
}
use corrigenda.Alignment.Ends.{Reads, price, pair_of, insertion}
use corrigenda.Alignment.Best.{Aligns, align_tokens-Reads, align_tokens-cheapest}
use corrigenda.PageAlignment.{PageLineAlignment, index_in, align_page_lines, default_line_band}
use corrigenda.PageAlignment.Matched.{IsInOrder, is_answer}
use corrigenda.PageAlignment.Sound.{Answers, align_page_lines-IsSound}

-- Units of which 1.0 has 840, which every length up to eight divides.
abbrev scale : Scale
scale = record { one = 840; tolerance = 1; weak_match = 420; move_similarity = 672 }

abbrev source : List Text
source = codes "the" ∷ codes "qvick" ∷ codes "fox" ∷ []

abbrev target : List Text
target = codes "the" ∷ codes "quick" ∷ codes "red" ∷ codes "fox" ∷ []

levenshtein_kitten : levenshtein (codes "kitten") (codes "sitting") ≡ 3
unfolding levenshtein
levenshtein_kitten = refl

align_tokens_inserted :
    align_tokens scale (char_similarity 840) source target none
    ≡ some (record {
      pairs = pair_of 0 0 840 ∷ pair_of 1 1 672 ∷ insertion 2 ∷ pair_of 2 3 840 ∷ [];
      score = (2352, 4);
      move_suspected = false;
      band_exhausted = false;
    })
unfolding align_tokens char_similarity centre round_div
align_tokens_inserted = refl

align_tokens-Reads_example :
    (alignment : TokenAlignment) × (align_tokens scale (char_similarity 840) source target (some 1)
      ≡ some alignment)
    × Reads 3 4 (sim_at scale (char_similarity 840) source target) 0 0 alignment.pairs
align_tokens-Reads_example =
    align_tokens-Reads scale (char_similarity 840) source target (some 1) (omega arith)

align_tokens-cheapest_example :
    (alignment : TokenAlignment) × (align_tokens scale (char_similarity 840) source target none
      ≡ some alignment)
    × ((other : List AlignedPair)
        → Aligns 3 4 (sim_at scale (char_similarity 840) source target) 0 0 other
        → price 840 alignment.pairs ≤ price 840 other)
align_tokens-cheapest_example = align_tokens-cheapest scale (char_similarity 840) source target refl

-- A page of which the model left out a line and added one.
abbrev page : List Text
page = codes "one two three" ∷ codes "four five" ∷ codes "six seven eight" ∷ []

abbrev answer : List Text
answer = codes "one two thre" ∷ codes "six seven eight" ∷ codes "nine ten" ∷ []

align_page_lines_merged :
    align_page_lines scale page answer default_line_band
    ≡ some (record {
      matched = some 0 ∷ none ∷ some 1 ∷ [];
      unclaimed = 2 ∷ [];
      band_exhausted = false;
    })
unfolding align_page_lines centre round_div
align_page_lines_merged = refl

align_page_lines-IsSound_example :
    (a : PageLineAlignment) × (align_page_lines scale page answer 20 ≡ some a)
    × (length a.matched ≡ 3)
    × IsInOrder (Answers page answer) 3 0 0 a.matched
    × ((j : ℕ) → index_in j a.unclaimed ≡ (ltb j 3 && not (is_answer j a.matched)))
align_page_lines-IsSound_example = align_page_lines-IsSound scale page answer 20 (omega arith)
