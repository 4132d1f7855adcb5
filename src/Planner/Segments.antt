-- ===== src/Planner/Segments.antt =====
-- Segments of a page's lines, as the slices of core/planner.py cut them, and the index of their
-- identifiers.
use corrigenda.Base.{
  ℕ, zero, suc, ◌-◌, ◌≤◌, ◌<◌, ◌≡◌, refl, ◌∙◌, ap, inl, inr, Option, none, some, List, [], ◌∷◌,
  ◌++◌, String, str_eq, eq_iff, length, length-take, length-drop, get_elem?, take, drop,
  take-append-drop, arith, Bool-cases, Option-cases,
}
use native.Mathlib.Numerals.{unary_clauses}
use corrigenda.Manifest.{LineManifest}
use corrigenda.Planner.{ids_of_lines, segment, index_by_id}

module _ {ℓ} {A : Type ℓ} where
  pub get_elem?-some_bound : (l : List A) (k : ℕ) (x : A) → get_elem? l k ≡ some x → k < length l
  get_elem?-some_bound [] k x h = cc
  get_elem?-some_bound (y ∷ l) zero x h = omega arith
  get_elem?-some_bound (y ∷ l) (suc k) x h = omega (arith, get_elem?-some_bound l k x h)

  pub get_elem?-below : (l : List A) (k : ℕ) → k < length l → (x : A) × (get_elem? l k ≡ some x)
  get_elem?-below [] k h = absurd (omega arith)
  get_elem?-below (y ∷ l) zero h = (y, refl)
  get_elem?-below (y ∷ l) (suc k) h = get_elem?-below l k (omega arith)

  pub get_elem?-none_bound : (l : List A) (k : ℕ) → get_elem? l k ≡ none → length l ≤ k
  get_elem?-none_bound [] k h = omega arith
  get_elem?-none_bound (y ∷ l) zero h = cc
  get_elem?-none_bound (y ∷ l) (suc k) h = omega (arith, get_elem?-none_bound l k h)

  pub drop_all : (l : List A) (k : ℕ) → length l ≤ k → drop k l ≡ []
  drop_all [] zero h = refl
  drop_all [] (suc k) h = refl
  drop_all (y ∷ l) zero h = absurd (omega arith)
  drop_all (y ∷ l) (suc k) h = drop_all l k (omega arith)

  pub length-segment : (a b : ℕ) (l : List A) → b ≤ length l → length (segment a b l) ≡ b - a
  length-segment a b l h = omega (arith, length-take (b - a) (drop a l), length-drop a l)

  take_nil : (n : ℕ) → take {A = A} n [] ≡ []
  take_nil zero = refl
  take_nil (suc n) = refl

  take-take : (b c : ℕ) (l : List A) → b ≤ c → take b l ++ take (c - b) (drop b l) ≡ take c l
  take-take zero c l h = simp unary_clauses refl
  take-take (suc b) zero l h = absurd (omega arith)
  take-take (suc b) (suc c) [] h = take_nil (suc c - suc b)
  take-take (suc b) (suc c) (x ∷ l) h =
      simp unary_clauses (ap (λ t. x ∷ t) (take-take b c l (omega arith)))

  pub segment-append :
      (a b c : ℕ) (l : List A) → a ≤ b → b ≤ c → segment a b l ++ segment b c l ≡ segment a c l
  segment-append zero b c l h k = simp unary_clauses (take-take b c l k)
  segment-append (suc a) zero c l h k = absurd (omega arith)
  segment-append (suc a) (suc b) zero l h k = absurd (omega arith)
  segment-append (suc a) (suc b) (suc c) [] h k =
      ground (arith, take_nil (suc b - suc a), take_nil (suc c - suc b), take_nil (suc c - suc a))
  segment-append (suc a) (suc b) (suc c) (x ∷ l) h k =
      simp unary_clauses (segment-append a b c l (omega arith) (omega arith))

  pub segment_one :
      (l : List A) (i : ℕ) (x : A) → get_elem? l i ≡ some x → segment i (suc i) l ≡ x ∷ []
  segment_one [] i x h = cc
  segment_one (y ∷ l) zero x h = ground arith
  segment_one (y ∷ l) (suc i) x h = simp unary_clauses (segment_one l i x h)

  pub segment-drop : (a b : ℕ) (l : List A) → a ≤ b → segment a b l ++ drop b l ≡ drop a l
  segment-drop zero b l h = simp unary_clauses (take-append-drop b l)
  segment-drop (suc a) zero l h = absurd (omega arith)
  segment-drop (suc a) (suc b) [] h = ap (λ t. t ++ []) (take_nil (suc b - suc a))
  segment-drop (suc a) (suc b) (x ∷ l) h = simp unary_clauses (segment-drop a b l (omega arith))

pub length-ids_of_lines : (lines : List LineManifest) → length (ids_of_lines lines) ≡ length lines
unfolding ids_of_lines
length-ids_of_lines [] = refl
length-ids_of_lines (lm ∷ lines) = ap suc (length-ids_of_lines lines)

ids_of_lines-take :
    (n : ℕ) (lines : List LineManifest) → ids_of_lines (take n lines) ≡ take n (ids_of_lines lines)
unfolding ids_of_lines
ids_of_lines-take zero lines = refl
ids_of_lines-take (suc n) [] = refl
ids_of_lines-take (suc n) (lm ∷ lines) = ap (λ t. lm.line_id ∷ t) (ids_of_lines-take n lines)

ids_of_lines-drop :
    (n : ℕ) (lines : List LineManifest) → ids_of_lines (drop n lines) ≡ drop n (ids_of_lines lines)
unfolding ids_of_lines
ids_of_lines-drop zero lines = refl
ids_of_lines-drop (suc n) [] = refl
ids_of_lines-drop (suc n) (lm ∷ lines) = ids_of_lines-drop n lines

pub ids_of_lines-segment :
    (a b : ℕ) (lines : List LineManifest)
    → ids_of_lines (segment a b lines) ≡ segment a b (ids_of_lines lines)
ids_of_lines-segment a b lines =
    ids_of_lines-take (b - a) (drop a lines) ∙ ap (take (b - a)) (ids_of_lines-drop a lines)

pub get_elem?-ids_of_lines :
    (lines : List LineManifest) (k : ℕ) (lm : LineManifest)
    → get_elem? lines k ≡ some lm
    → get_elem? (ids_of_lines lines) k ≡ some lm.line_id
unfolding ids_of_lines
get_elem?-ids_of_lines [] k lm h = cc
get_elem?-ids_of_lines (m ∷ lines) zero lm h = ground arith
get_elem?-ids_of_lines (m ∷ lines) (suc k) lm h = get_elem?-ids_of_lines lines k lm h

-- An index by identifier leads to lines of that identifier.
abbrev pub IsIndex : (String → Option ℕ) → List String → Type 0
IsIndex at ids = (i : String) (k : ℕ) → at i ≡ some k → get_elem? ids k ≡ some i

pub index_by_id-IsIndex :
    (lines : List LineManifest) → IsIndex (index_by_id lines) (ids_of_lines lines)
unfolding index_by_id ids_of_lines
index_by_id-IsIndex [] i k h = cc
index_by_id-IsIndex (lm ∷ lines) i k h = elim (Option-cases (index_by_id lines i)) [
  | inl e ↦ elim (Bool-cases (str_eq lm.line_id i)) [
    | inl s ↦
        let here : k ≡ 0 = ground (arith, e, s) in rw here (ground (arith, eq_iff lm.line_id i))
    | inr s ↦ absurd (ground (arith, e, s))
  ]
  | inr (n, e) ↦
      let here : k ≡ suc n = ground (arith, e) in rw here (index_by_id-IsIndex lines i n e)
]
