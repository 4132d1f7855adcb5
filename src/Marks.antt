-- ===== src/Marks.antt =====
-- core/pairing.py: the break marks that end a line on a cut word, and how they are recognised,
-- stripped and preserved.
use corrigenda.Base.{
  ℕ, Bool, false, ◌&&◌, ◌||◌, Option, none, some, List, [], ◌∷◌, ◌++◌, Text, rstrip, rstrip_by,
  ends_in, words, length, drop, ◌==◌, if◌then◌else◌,
}

-- HYPHEN_CHARS, in the order of the tuple: - ¬ ⸗ U+00AD U+2010 U+2011
abbrev pub hyphen_chars : List ℕ
hyphen_chars = 0x2d ∷ 0xac ∷ 0x2e17 ∷ 0xad ∷ 0x2010 ∷ 0x2011 ∷ []

unfoldable pub char_in : ℕ → List ℕ → Bool
char_in c [] = false
char_in c (d ∷ ds) = c == d || char_in c ds

unfoldable pub is_break_mark : ℕ → Bool
unfolding char_in
is_break_mark c = char_in c hyphen_chars

unfoldable pub ends_with_break_mark : Text → Bool
unfolding is_break_mark ends_in rstrip
ends_with_break_mark text = ends_in is_break_mark (rstrip text)

unfoldable pub strip_trailing_break_marks : Text → Text
unfolding is_break_mark rstrip_by
strip_trailing_break_marks text = rstrip_by is_break_mark text

unfoldable pub last_word : List Text → Option Text
last_word [] = none
last_word (w ∷ []) = some w
last_word (w ∷ v ∷ ws) = last_word (v ∷ ws)

-- `s[:-1]`
unfoldable pub but_last : Text → Text
but_last [] = []
but_last (c ∷ []) = []
but_last (c ∷ d ∷ s) = c ∷ but_last (d ∷ s)

-- `bare and bare[-1].isalpha()`. `str.isalpha` is a table of the Unicode database: a parameter.
unfoldable pub ends_in_letter : (ℕ → Bool) → Text → Bool
unfolding ends_in
ends_in_letter is_alpha bare = ends_in is_alpha bare

-- The loop over `hyphen_chars`: a mark that ends the token behind a letter.
unfoldable pub first_mark : (ℕ → Bool) → List ℕ → Text → Option ℕ
unfolding ends_in_letter but_last ends_in
first_mark is_alpha [] last = none
first_mark is_alpha (ch ∷ chs) last =
    let rest = first_mark is_alpha chs last in
    if ends_in (λ c. c == ch) last && ends_in_letter is_alpha (but_last last) then some ch else rest

unfoldable pub trailing_hyphen_char : (ℕ → Bool) → Text → List ℕ → Option ℕ
unfolding first_mark last_word words
trailing_hyphen_char is_alpha text chars = elim (last_word (words text)) [
  | none ↦ none
  | some last ↦ first_mark is_alpha chars last
]

-- `stripped[:-1] + src_h` where the proposal ends in another mark than the source's.
unfoldable pub with_mark : ℕ → Text → Text
unfolding is_break_mark ends_in but_last
with_mark mark stripped =
    if ends_in is_break_mark stripped then but_last stripped ++ mark ∷ [] else stripped

unfoldable pub preserve_break_char : (ℕ → Bool) → Text → Text → Text
unfolding trailing_hyphen_char with_mark rstrip
preserve_break_char is_alpha source_text corrected =
    elim (trailing_hyphen_char is_alpha source_text hyphen_chars) [
      | none ↦ corrected
      | some mark ↦ with_mark mark (rstrip corrected) ++ drop (length (rstrip corrected)) corrected
    ]
