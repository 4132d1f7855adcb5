-- ===== src/PageAlignment/Resembles.antt =====
-- `line_similarity` of core/page_alignment.py.
use corrigenda.Base.{
  Bool-cases, ℕ, ◌+◌, ◌-◌, ◌≤◌, ◌<◌, ◌≡◌, ◌⊎◌, refl, inl, inr, Bool, true, false, ◌||◌, List, [],
  ◌∷◌, Text, words, length, ltb, arith,
}
use corrigenda.PageAlignment.{
  merge_slack_tokens, text_in, distinct, count_shared, jaccard, line_similarity,
}

-- What `line_similarity` vouches for where it is not 0: the token counts differ by no more than
-- MERGE_SLACK_TOKENS, and the lines are both blank or a token of one stands in the other.
unfoldable pub any_shared : List Text → List Text → Bool
any_shared [] right = false
any_shared (t ∷ left) right = text_in t right || any_shared left right

pub record Resembles (left right : Text) : Type 0 where
  pub target_slack : length (words right) ≤ length (words left) + merge_slack_tokens
  pub source_slack : length (words left) ≤ length (words right) + merge_slack_tokens
  pub shares :
      (any_shared (words left) (words right) ≡ true) ⊎ ((words left ≡ []) × (words right ≡ []))

text_in-distinct :
    (t : Text) (ts : List Text) → text_in t (distinct ts) ≡ true → text_in t ts ≡ true
unfolding text_in distinct
text_in-distinct t [] e = e
text_in-distinct t (s ∷ ts) e = elim (Bool-cases (text_in s ts)) [
  | inl again ↦ ground (arith, text_in-distinct t ts)
  | inr fresh ↦ ground (arith, text_in-distinct t ts)
]

text_in_nil : (t : Text) → text_in t [] ≡ false
unfolding text_in
text_in_nil t = refl

distinct-nil : (ts : List Text) → distinct ts ≡ [] → ts ≡ []
unfolding distinct
distinct-nil [] e = refl
distinct-nil (t ∷ ts) e = elim (Bool-cases (text_in t ts)) [
  | inl again ↦ ground (arith, distinct-nil ts, text_in_nil t)
  | inr fresh ↦ ground (arith)
]

any_shared_of_count :
    (left right : List Text) → 0 < count_shared left (distinct right) → any_shared left right ≡ true
unfolding any_shared count_shared
any_shared_of_count [] right h = absurd (omega arith)
any_shared_of_count (t ∷ left) right h =
    ground (arith, text_in-distinct t right, any_shared_of_count left right)

any_shared-distinct :
    (left right : List Text)
    → any_shared (distinct left) right ≡ true
    → any_shared left right ≡ true
unfolding any_shared distinct
any_shared-distinct [] right e = e
any_shared-distinct (t ∷ left) right e = elim (Bool-cases (text_in t left)) [
  | inl again ↦ ground (arith, any_shared-distinct left right)
  | inr fresh ↦ ground (arith, any_shared-distinct left right)
]

jaccard-shares :
    (one : ℕ) (left right : List Text)
    → 0 < jaccard one left right
    → (0 < count_shared left right) ⊎ ((left ≡ []) × (right ≡ []))
unfolding jaccard
jaccard-shares one [] [] h = inr (refl, refl)
jaccard-shares one [] (s ∷ right) h = absurd (omega arith)
jaccard-shares one (t ∷ left) [] h = absurd (omega arith)
jaccard-shares one (t ∷ left) (s ∷ right) h = inl (grind arith)

pub line_similarity-Resembles :
    (one : ℕ) (left right : Text) → 0 < line_similarity one left right → Resembles left right
unfolding line_similarity
line_similarity-Resembles one left right h =
    let n = length (words left) in
    let m = length (words right) in
    elim (Bool-cases (ltb merge_slack_tokens ((n - m) + (m - n)))) [
      | inl apart ↦ let none_left : 0 < 0 = rw apart at h in absurd (omega arith)
      | inr close ↦
          let j : 0 < jaccard one (distinct (words left)) (distinct (words right)) =
            rw close at h in
          record {
            target_slack = ground arith;
            source_slack = ground arith;
            shares = elim (jaccard-shares one _ _ j) [
              | inl some_shared ↦
                  inl (any_shared-distinct _ _ (any_shared_of_count _ (words right) some_shared))
              | inr (no_left, no_right) ↦ inr (distinct-nil _ no_left, distinct-nil _ no_right)
            ];
          }
    ]
