-- ===== src/PageAlignment/Matched.antt =====
-- `align_page_lines` of core/page_alignment.py: what stands in its `matched` and `unclaimed`.
use mathlib.Core.Path.{subst}
use corrigenda.Base.{
  leb, length-append, ℕ, zero, suc, ◌+◌, ◌-◌, ◌≤◌, ◌<◌, ◌≡◌, refl, sym, ap, ◌∙◌, inl, inr, Bool,
  false, not, ◌&&◌, ◌||◌, Option, none, some, List, [], ◌∷◌, ◌++◌, length, ltb, ◌==◌, arith,
}
use corrigenda.Alignment.{AlignedPair}
use corrigenda.Alignment.Ends.{Reads}
use corrigenda.PageAlignment.{
  set_match, unmatched_list, match_pairs, claimed_by, index_in, unclaimed_from,
}

-- What a page's alignment may say of the source lines from the `i`-th on, where the returned lines
-- before the `j`-th are behind: a line that is answered is answered by a later one than all before
-- it, and `Vouched` holds of the two.
abbrev pub IsInOrder : (ℕ → ℕ → Type 0) → ℕ → ℕ → ℕ → List (Option ℕ) → Type 0
IsInOrder Vouched m i j [] = Unit
IsInOrder Vouched m i j (none ∷ matched) = IsInOrder Vouched m (suc i) j matched
IsInOrder Vouched m i j (some k ∷ matched) =
    (j ≤ k) × (k < m) × Vouched i k × IsInOrder Vouched m (suc i) (suc k) matched

unfoldable pub is_answer : ℕ → List (Option ℕ) → Bool
is_answer j [] = false
is_answer j (none ∷ matched) = is_answer j matched
is_answer j (some k ∷ matched) = (k == j) || is_answer j matched

-- `matched`, read off the pairs in one go.
unfoldable pub answers : List AlignedPair → List (Option ℕ)
answers [] = []
answers (p ∷ ps) =
    let rest = answers ps in elim p.source_index [ none ↦ rest | some i ↦ p.target_index ∷ rest ]

set_match-prefix :
    (done rest : List (Option ℕ)) (x : Option ℕ) (j : ℕ)
    → set_match (done ++ x ∷ rest) (length done) j ≡ done ++ some j ∷ rest
unfolding set_match
set_match-prefix [] rest x j = refl
set_match-prefix (d ∷ done) rest x j = ap (λ t. d ∷ t) (set_match-prefix done rest x j)

append-snoc {ℓ} :
    {A : Type ℓ} (xs : List A) (x : A) (ys : List A) → xs ++ x ∷ ys ≡ (xs ++ x ∷ []) ++ ys
append-snoc [] x ys = refl
append-snoc (y ∷ xs) x ys = ap (λ t. y ∷ t) (append-snoc xs x ys)

length-snoc {ℓ} :
    {A : Type ℓ} {n : ℕ} (xs : List A) (x : A) → length xs ≡ n → length (xs ++ x ∷ []) ≡ suc n
length-snoc xs x e = omega (arith, length-append xs (x ∷ []))

IsInOrder-mono :
    (Vouched : ℕ → ℕ → Type 0) (m i j k : ℕ) (matched : List (Option ℕ))
    → j ≤ k
    → IsInOrder Vouched m i k matched
    → IsInOrder Vouched m i j matched
IsInOrder-mono Vouched m i j k [] le p = tt
IsInOrder-mono Vouched m i j k (none ∷ matched) le p =
    IsInOrder-mono Vouched m (suc i) j k matched le p
IsInOrder-mono Vouched m i j k (some a ∷ matched) le p = (omega arith, p.1, p.2, p.3)

module _ (n m : ℕ) (sim : ℕ → ℕ → ℕ) where
  Reads-le : (i j : ℕ) (ps : List AlignedPair) → Reads n m sim i j ps → (i ≤ n) × (j ≤ m)
  Reads-le i j [] r = omega arith
  Reads-le i j (p ∷ ps) (inl (e, s, r)) =
      let q = Reads-le (suc i) (suc j) ps r in (omega arith, omega arith)
  Reads-le i j (p ∷ ps) (inr (inl (e, r))) =
      let q = Reads-le (suc i) j ps r in (omega arith, omega arith)
  Reads-le i j (p ∷ ps) (inr (inr (e, r))) =
      let q = Reads-le i (suc j) ps r in (omega arith, omega arith)

  pub match_pairs-answers :
      (i j : ℕ) (ps : List AlignedPair) (done : List (Option ℕ))
      → length done ≡ i
      → Reads n m sim i j ps
      → match_pairs ps (done ++ unmatched_list (n - i)) ≡ done ++ answers ps
  unfolding match_pairs answers unmatched_list
  match_pairs-answers i j [] done e r = let none_left : n - i ≡ 0 = omega arith in rw none_left refl
  match_pairs-answers i j (p ∷ ps) done e (inl (ep, s, r)) =
      let q = Reads-le (suc i) (suc j) ps r in
      let one_left : n - i ≡ suc (n - suc i) = omega arith in
      subst (λ p. match_pairs (p ∷ ps) (done ++ unmatched_list (n - i)) ≡ done ++ answers (p ∷ ps))
        (sym ep)
        (rw one_left (
          sym
            (ap (λ t. match_pairs ps (set_match (done ++ none ∷ unmatched_list (n - suc i)) t j)) e)
          ∙ ap (match_pairs ps) (set_match-prefix done _ none j ∙ append-snoc done (some j) _)
          ∙ match_pairs-answers (suc i) (suc j) ps (done ++ some j ∷ []) (length-snoc done _ e) r
          ∙ sym (append-snoc done (some j) _)))
  match_pairs-answers i j (p ∷ ps) done e (inr (inl (ep, r))) =
      let q = Reads-le (suc i) j ps r in
      let one_left : n - i ≡ suc (n - suc i) = omega arith in
      subst (λ p. match_pairs (p ∷ ps) (done ++ unmatched_list (n - i)) ≡ done ++ answers (p ∷ ps))
        (sym ep)
        (rw one_left (
          ap (match_pairs ps) (append-snoc done none _)
          ∙ match_pairs-answers (suc i) j ps (done ++ none ∷ []) (length-snoc done _ e) r
          ∙ sym (append-snoc done none _)))
  match_pairs-answers i j (p ∷ ps) done e (inr (inr (ep, r))) =
      subst (λ p. match_pairs (p ∷ ps) (done ++ unmatched_list (n - i)) ≡ done ++ answers (p ∷ ps))
        (sym ep) (match_pairs-answers i (suc j) ps done e r)

  pub length-answers :
      (i j : ℕ) (ps : List AlignedPair) → Reads n m sim i j ps → i + length (answers ps) ≡ n
  unfolding answers
  length-answers i j [] r = omega arith
  length-answers i j (p ∷ ps) (inl (ep, s, r)) =
      subst (λ p. i + length (answers (p ∷ ps)) ≡ n) (sym ep)
        (omega (arith, length-answers (suc i) (suc j) ps r))
  length-answers i j (p ∷ ps) (inr (inl (ep, r))) =
      subst (λ p. i + length (answers (p ∷ ps)) ≡ n) (sym ep)
        (omega (arith, length-answers (suc i) j ps r))
  length-answers i j (p ∷ ps) (inr (inr (ep, r))) =
      subst (λ p. i + length (answers (p ∷ ps)) ≡ n) (sym ep)
        (omega (arith, length-answers i (suc j) ps r))

  pub answers-IsInOrder :
      (i j : ℕ) (ps : List AlignedPair)
      → Reads n m sim i j ps
      → IsInOrder (λ i k. 0 < sim i k) m i j (answers ps)
  unfolding answers
  answers-IsInOrder i j [] r = tt
  answers-IsInOrder i j (p ∷ ps) (inl (ep, s, r)) =
      let q = Reads-le (suc i) (suc j) ps r in
      subst (λ p. IsInOrder (λ i k. 0 < sim i k) m i j (answers (p ∷ ps))) (sym ep)
        (omega arith, omega arith, s, answers-IsInOrder (suc i) (suc j) ps r)
  answers-IsInOrder i j (p ∷ ps) (inr (inl (ep, r))) =
      subst (λ p. IsInOrder (λ i k. 0 < sim i k) m i j (answers (p ∷ ps))) (sym ep)
        (answers-IsInOrder (suc i) j ps r)
  answers-IsInOrder i j (p ∷ ps) (inr (inr (ep, r))) =
      subst (λ p. IsInOrder (λ i k. 0 < sim i k) m i j (answers (p ∷ ps))) (sym ep)
        (IsInOrder-mono (λ i k. 0 < sim i k) m i j (suc j) (answers ps) (omega arith)
          (answers-IsInOrder i (suc j) ps r))

  pub is_answer-claimed :
      (i j k : ℕ) (ps : List AlignedPair)
      → Reads n m sim i j ps
      → is_answer k (answers ps) ≡ index_in k (claimed_by ps)
  unfolding is_answer answers index_in claimed_by
  is_answer-claimed i j k [] r = refl
  is_answer-claimed i j k (p ∷ ps) (inl (ep, s, r)) =
      subst (λ p. is_answer k (answers (p ∷ ps)) ≡ index_in k (claimed_by (p ∷ ps))) (sym ep)
        (ap (λ t. (j == k) || t) (is_answer-claimed (suc i) (suc j) k ps r))
  is_answer-claimed i j k (p ∷ ps) (inr (inl (ep, r))) =
      subst (λ p. is_answer k (answers (p ∷ ps)) ≡ index_in k (claimed_by (p ∷ ps))) (sym ep)
        (is_answer-claimed (suc i) j k ps r)
  is_answer-claimed i j k (p ∷ ps) (inr (inr (ep, r))) =
      subst (λ p. is_answer k (answers (p ∷ ps)) ≡ index_in k (claimed_by (p ∷ ps))) (sym ep)
        (is_answer-claimed i (suc j) k ps r)

pub index_in-unclaimed_from :
    (claimed : List ℕ) (k j i : ℕ)
    → index_in i (unclaimed_from claimed k j)
      ≡ ((leb j i && ltb i (j + k)) && not (index_in i claimed))
unfolding index_in unclaimed_from
index_in-unclaimed_from claimed zero j i = ground arith
index_in-unclaimed_from claimed (suc k) j i = ground (
  arith,
  index_in-unclaimed_from claimed k (suc j) i,
  ap (λ t. index_in t claimed) {x = i} {y = j},
)
