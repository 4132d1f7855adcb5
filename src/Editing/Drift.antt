-- ===== src/Editing/Drift.antt =====
-- The guards of core/editing.py on what an edit changes: the size of the differing window, and the
-- break mark and boundary word of a hyphenated line.
use mathlib.Core.List.{reverse}
use corrigenda.Base.{
  ℕ, zero, suc, ◌+◌, ◌-◌, min, max, Bool, true, false, ◌&&◌, ◌||◌, not, Option, none, some, List,
  [], ◌∷◌, Text, length, text_eq, rstrip, is_empty, is_blank, is_space, ends_in, leb, ◌==◌,
  if◌then◌else◌,
}
use corrigenda.Manifest.{HyphenRole, wants_forward, wants_backward}
use corrigenda.Marks.{ends_with_break_mark, strip_trailing_break_marks}
use corrigenda.Editing.Ops.{Range}

-- `_norm.py`: the boundaries of `str.splitlines`.
unfoldable pub is_separator : ℕ → Bool
is_separator c =
    (leb 0x0a c && leb c 0x0d)
    || (leb 0x1c c && leb c 0x1e)
    || (c == 0x85)
    || (c == 0x2028)
    || (c == 0x2029)

unfoldable pub has_line_separator : Text → Bool
unfolding is_separator
has_line_separator [] = false
has_line_separator (c ∷ s) = is_separator c || has_line_separator s

-- How far two texts agree from their start, `limit` characters at most.
unfoldable pub common_upto : ℕ → Text → Text → ℕ
common_upto zero s t = 0
common_upto (suc limit) [] t = 0
common_upto (suc limit) (c ∷ s) [] = 0
common_upto (suc limit) (c ∷ s) (d ∷ t) =
    let more = suc (common_upto limit s t) in if c == d then more else 0

unfoldable pub common_prefix : Text → Text → ℕ
unfolding common_upto
common_prefix o r = common_upto (min (length o) (length r)) o r

-- The loop from the ends, which stops short of the common prefix.
unfoldable pub common_suffix : Text → Text → ℕ
unfolding common_upto common_prefix
common_suffix o r =
    common_upto (min (length o) (length r) - common_prefix o r) (reverse o) (reverse r)

unfoldable pub changed_chars : Text → Text → ℕ
unfolding common_prefix common_suffix
changed_chars original replacement =
    if text_eq original replacement
    then 0
    else max (length original) (length replacement)
      - common_prefix original replacement
      - common_suffix original replacement

unfoldable pub ends_in_space : Text → Bool
unfolding ends_in is_space
ends_in_space s = ends_in is_space s

unfoldable pub ends_in_blank : Text → Bool
unfolding ends_in
ends_in_blank s = ends_in (λ c. c == 0x20) s

unfoldable pub e5_hyphen_ok : HyphenRole → Text → Text → Bool
e5_hyphen_ok role result source =
    let stripped = rstrip result in
    let before_mark = strip_trailing_break_marks stripped in
    not (wants_forward role)
    || (ends_with_break_mark result
        && not (is_empty before_mark)
        && not (
            ends_in_space before_mark
            && not (ends_in_blank (strip_trailing_break_marks (rstrip source)))))

unfoldable pub count_spaces : Text → ℕ
unfolding is_space
count_spaces [] = 0
count_spaces (c ∷ s) = let more = suc (count_spaces s) in if is_space c then more else 0

unfoldable pub count_word : Text → ℕ
unfolding is_space
count_word [] = 0
count_word (c ∷ s) = let more = suc (count_word s) in if is_space c then 0 else more

unfoldable pub skip_spaces : Text → Text
unfolding is_space
skip_spaces [] = []
skip_spaces (c ∷ s) = let more = skip_spaces s in elim (is_space c) [ true ↦ more | false ↦ c ∷ s ]

unfoldable pub first_word_range : Text → Option Range
unfolding count_spaces count_word skip_spaces
first_word_range text =
    if leb (length text) (count_spaces text)
    then none
    else some (record {
      start = count_spaces text;
      end = count_spaces text + count_word (skip_spaces text);
    })

-- A span that covers the word and puts nothing in its place.
unfoldable pub erases : Range → Range × Text → Bool
erases word (anchor, replacement) =
    leb anchor.start word.start && leb word.end anchor.end && is_blank replacement

unfoldable pub any_erases : Range → List (Range × Text) → Bool
unfolding erases
any_erases word [] = false
any_erases word (s ∷ spans) = erases word s || any_erases word spans

unfoldable pub e5b_boundary_word_kept : HyphenRole → Text → List (Range × Text) → Bool
unfolding first_word_range any_erases
e5b_boundary_word_kept role canonical spans =
    if wants_backward role
    then elim (first_word_range canonical) [ none ↦ true | some word ↦ not (any_erases word spans) ]
    else true
