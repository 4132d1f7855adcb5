-- ===== src/Editing/Positions.antt =====
-- Where a text stands in another: `starts_loop` of core/editing.py against trying each place.
use corrigenda.Base.{
  ℕ, zero, suc, ◌+◌, ◌≤◌, ◌<◌, Bool, true, false, ◌≡◌, refl, ap, ◌⊎◌, inl, inr, Option, none, some,
  List, [], ◌∷◌, Text, length, take, drop, find, find_from, add_to, is_prefix, is_empty, arith,
  if◌then◌else◌,
}
use corrigenda.Editing.Anchor.{starts_loop, all_starts}

-- The places at which a text stands in another, found by trying each: the specification.
pub positions : Text → ℕ → Text → List ℕ
positions m k [] = []
positions m k (c ∷ s) =
    let rest = positions m (k + 1) s in if is_prefix m (c ∷ s) then k ∷ rest else rest

module _ {ℓ} {A : Type ℓ} where
  drop-suc : (i : ℕ) (s : List A) → i < length s → (c : A) × (drop i s ≡ c ∷ drop (suc i) s)
  drop-suc i [] h = absurd (omega arith)
  drop-suc zero (c ∷ s) h = (c, refl)
  drop-suc (suc i) (c ∷ s) h = drop-suc i s (omega arith)

  drop_all : (i : ℕ) (s : List A) → length s ≤ i → drop i s ≡ []
  drop_all zero [] h = refl
  drop_all zero (c ∷ s) h = absurd (omega arith)
  drop_all (suc i) [] h = refl
  drop_all (suc i) (c ∷ s) h = drop_all i s (omega arith)

add_to-add_to : (i j : ℕ) (o : Option ℕ) → add_to i (add_to j o) ≡ add_to (i + j) o
add_to-add_to i j none = refl
add_to-add_to i j (some k) = ap some (omega arith)

-- A search from `i` finds `i`, or what a search from the next place finds.
find_from_step :
    (m s : Text) (i : ℕ) (c : ℕ) (rest : Text)
    → drop i s ≡ c ∷ rest
    → drop (suc i) s ≡ rest
    → find_from m s i ≡ (if is_prefix m (c ∷ rest) then some i else find_from m s (i + 1))
unfolding find_from find
find_from_step m s i c rest e e' =
    let n : i + 1 ≡ suc i = omega arith in
    rw (e, n, e') (ground (arith, add_to-add_to i 1 (find m rest)))

positions_step :
    (m : Text) (k c : ℕ) (s : Text)
    → positions m k (c ∷ s)
      ≡ (if is_prefix m (c ∷ s) then k ∷ positions m (k + 1) s else positions m (k + 1) s)
unfolding positions
positions_step m k c s = refl

module _ (m s : Text) (some_text : is_empty m ≡ false) where
  find-nil : find m [] ≡ none
  unfolding find is_empty
  find-nil = ground arith

  find_from_end : (i : ℕ) → length s ≤ i → find_from m s i ≡ none
  unfolding find_from
  find_from_end i h = rw (drop_all i s h, find-nil)

  one_step :
      (i fuel : ℕ) (b : Bool) {rest : List ℕ}
      → starts_loop fuel m s (find_from m s (i + 1)) ≡ rest
      → starts_loop (suc fuel) m s (find_from m s (i + 1)) ≡ rest
      → starts_loop (suc fuel) m s (if b then some i else find_from m s (i + 1))
        ≡ (if b then i ∷ rest else rest)
  unfolding starts_loop
  one_step i fuel true later same = ap (λ r. i ∷ r) later
  one_step i fuel false later same = same

  -- With fuel for every place left, the loop collects the positions.
  starts_loop-eq-positions :
      (n i fuel : ℕ)
      → length s ≡ i + n
      → n < fuel
      → starts_loop fuel m s (find_from m s i) ≡ positions m i (drop i s)
  starts_loop-eq-positions n i zero e h = absurd (omega arith)
  starts_loop-eq-positions zero i (suc fuel) e h =
      rw (find_from_end i (omega arith), drop_all i s (omega arith))
        (unfold starts_loop positions in refl)
  starts_loop-eq-positions (suc n) i (suc fuel) e h =
      let (c, d) = drop-suc i s (omega arith) in
      let one : i + 1 ≡ suc i = omega arith in
      let later : starts_loop fuel m s (find_from m s (i + 1))
          ≡ positions m (i + 1) (drop (suc i) s) =
        rw one (starts_loop-eq-positions n (suc i) fuel (omega arith) (omega arith)) in
      let same : starts_loop (suc fuel) m s (find_from m s (i + 1))
          ≡ positions m (i + 1) (drop (suc i) s) =
        rw one (starts_loop-eq-positions n (suc i) (suc fuel) (omega arith) (omega arith)) in
      rw (find_from_step m s i c (drop (suc i) s) d refl, d, positions_step)
        (one_step i fuel (is_prefix m (c ∷ drop (suc i) s)) later same)

  pub all_starts-eq-positions : all_starts m s ≡ positions m 0 s
  unfolding all_starts
  all_starts-eq-positions =
      starts_loop-eq-positions (length s) 0 (suc (length s)) (omega arith) (omega arith)

-- A position in the list holds the text, and every place that holds it is in the list.
abbrev pub IsIn : ℕ → List ℕ → Type 0
IsIn i [] = ⊥
IsIn i (x ∷ xs) = (i ≡ x) ⊎ IsIn i xs

pub positions_sound :
    (m : Text) (k : ℕ) (s : Text) (i : ℕ)
    → IsIn i (positions m k s)
    → (j : ℕ) × (i ≡ k + j) × (is_prefix m (drop j s) ≡ true)
unfolding positions
positions_sound m k [] i h = absurd h
positions_sound m k (c ∷ s) i h = found (is_prefix m (c ∷ s)) refl h (positions_sound m (k + 1) s i)
  where
    Found : Type 0
    Found = (j : ℕ) × (i ≡ k + j) × (is_prefix m (drop j (c ∷ s)) ≡ true)

    later : (j : ℕ) × (i ≡ k + 1 + j) × (is_prefix m (drop j s) ≡ true) → Found
    later (j, e, p) = (suc j, omega arith, p)

    found :
        (b : Bool)
        → is_prefix m (c ∷ s) ≡ b
        → IsIn i (if b then k ∷ positions m (k + 1) s else positions m (k + 1) s)
        → (IsIn i (positions m (k + 1) s)
            → (j : ℕ) × (i ≡ k + 1 + j) × (is_prefix m (drop j s) ≡ true))
        → Found
    found true p (inl e) ih = (0, omega arith, p)
    found true p (inr q) ih = later (ih q)
    found false p q ih = later (ih q)

is_prefix-nil : (m : Text) → is_empty m ≡ false → is_prefix m [] ≡ false
unfolding is_prefix is_empty
is_prefix-nil m n = ground arith

pub positions_complete :
    (m : Text) (k : ℕ) (s : Text) (j : ℕ)
    → is_empty m ≡ false
    → is_prefix m (drop j s) ≡ true
    → IsIn (k + j) (positions m k s)
unfolding positions
positions_complete m k [] zero n h = absurd (ground (arith, is_prefix-nil m n))
positions_complete m k [] (suc j) n h = absurd (ground (arith, is_prefix-nil m n))
positions_complete m k (c ∷ s) zero n h = rw h (inl (omega arith))
positions_complete m k (c ∷ s) (suc j) n h =
    let e : k + 1 + j ≡ k + suc j = omega arith in
    kept (is_prefix m (c ∷ s)) (rw e at (positions_complete m (k + 1) s j n h))
  where
    kept :
        (b : Bool)
        → IsIn (k + suc j) (positions m (k + 1) s)
        → IsIn (k + suc j) (if b then k ∷ positions m (k + 1) s else positions m (k + 1) s)
    kept true q = inr q
    kept false q = q

-- Where a text stands at the head of another, cutting there gives it back.
pub take-is_prefix :
    (m s : Text) → is_prefix m s ≡ true → (take (length m) s ≡ m) × (length m ≤ length s)
unfolding is_prefix
take-is_prefix [] s h = (refl, omega arith)
take-is_prefix (c ∷ m) [] h = cc
take-is_prefix (c ∷ m) (d ∷ s) h = ground (arith, take-is_prefix m s)
