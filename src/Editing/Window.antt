-- ===== src/Editing/Window.antt =====
-- What `_changed_chars` of core/editing.py measures.
use mathlib.Core.List.{reverse, reverse-append, reverse-reverse}
use mathlib.Core.Path.{subst, ap₂}
use corrigenda.Base.{
  ℕ, zero, suc, ◌+◌, ◌-◌, ◌≤◌, min, max, ◌≡◌, refl, sym, ◌∙◌, ap, [], ◌∷◌, ◌++◌, Text, length,
  length-append, length-take, length-drop, take, drop, take-append-drop, take_prefix, text_eq,
  text_eq→≡, append-nil, append_assoc, arith, Bool-cases, inl, inr,
}
use corrigenda.Editing.Drift.{common_upto, common_prefix, common_suffix, changed_chars}

length-reverse : (s : Text) → length (reverse s) ≡ length s
length-reverse [] = refl
length-reverse (c ∷ s) =
    let e : length (reverse (c ∷ s)) ≡ length (reverse s ++ c ∷ []) =
      ap length (reverse-append (c ∷ []) s) in
    omega (arith, e, length-append (reverse s) (c ∷ []), length-reverse s)

common_upto_bounds :
    (n : ℕ) (s t : Text)
    → (common_upto n s t ≤ n) × (common_upto n s t ≤ length s) × (common_upto n s t ≤ length t)
unfolding common_upto
common_upto_bounds zero s t = omega arith
common_upto_bounds (suc n) [] t = omega arith
common_upto_bounds (suc n) (c ∷ s) [] = omega arith
common_upto_bounds (suc n) (c ∷ s) (d ∷ t) = ground (arith, common_upto_bounds n s t)

common_upto_agree : (n : ℕ) (s t : Text) → take (common_upto n s t) s ≡ take (common_upto n s t) t
unfolding common_upto
common_upto_agree zero s t = refl
common_upto_agree (suc n) [] t = refl
common_upto_agree (suc n) (c ∷ s) [] = refl
common_upto_agree (suc n) (c ∷ s) (d ∷ t) = ground (arith, common_upto_agree n s t)

-- The last characters, read from the reversed text.
take-reverse :
    (k : ℕ) (s : Text) → k ≤ length s → take k (reverse s) ≡ reverse (drop (length s - k) s)
take-reverse k s h =
    let i = length s - k in
    let whole : reverse s ≡ reverse (drop i s) ++ reverse (take i s) =
      ap reverse (sym (take-append-drop i s)) ∙ reverse-append (take i s) (drop i s) in
    let size : length (reverse (drop i s)) ≡ k =
      omega (arith, length-reverse (drop i s), length-drop i s) in
    ap (take k) whole
    ∙ subst (λ n. take n (reverse (drop i s) ++ reverse (take i s)) ≡ reverse (drop i s)) size
        (take_prefix (reverse (drop i s)) (reverse (take i s)))

drop-eq_of_reverse :
    (k : ℕ) (s t : Text)
    → k ≤ length s
    → k ≤ length t
    → take k (reverse s) ≡ take k (reverse t)
    → drop (length s - k) s ≡ drop (length t - k) t
drop-eq_of_reverse k s t hs ht e =
    sym (reverse-reverse (drop (length s - k) s))
    ∙ ap reverse (sym (take-reverse k s hs) ∙ e ∙ take-reverse k t ht)
    ∙ reverse-reverse (drop (length t - k) t)

take-take : (p k : ℕ) (s : Text) → p ≤ k → take p (take k s) ≡ take p s
take-take zero k s h = refl
take-take (suc p) zero s h = absurd (omega arith)
take-take (suc p) (suc k) [] h = refl
take-take (suc p) (suc k) (c ∷ s) h = ap (λ t. c ∷ t) (take-take p k s (omega arith))

-- A text cut at two places, the second not before the first.
cut_twice : (p k : ℕ) (s : Text) → p ≤ k → s ≡ take p s ++ (drop p (take k s) ++ drop k s)
cut_twice p k s h =
    sym (take-append-drop k s)
    ∙ ap (λ t. t ++ drop k s) (sym (take-append-drop p (take k s)))
    ∙ append_assoc (take p (take k s)) (drop p (take k s)) (drop k s)
    ∙ ap (λ t. t ++ (drop p (take k s) ++ drop k s)) (take-take p k s h)

-- The window in which two texts differ: what stands before it and behind it is common.
pub record Window (o r : Text) (size : ℕ) : Type 0 where
  pub before : Text
  pub behind : Text
  pub old : Text
  pub new : Text
  pub original : o ≡ before ++ (old ++ behind)
  pub replacement : r ≡ before ++ (new ++ behind)
  pub measured : size ≡ max (length old) (length new)

common_prefix_bounds :
    (o r : Text) → (common_prefix o r ≤ length o) × (common_prefix o r ≤ length r)
unfolding common_prefix
common_prefix_bounds o r = omega (arith, common_upto_bounds (min (length o) (length r)) o r)

common_suffix_bounds :
    (o r : Text)
    → (common_prefix o r + common_suffix o r ≤ length o)
      × (common_prefix o r + common_suffix o r ≤ length r)
unfolding common_suffix
common_suffix_bounds o r = omega (
  arith,
  common_prefix_bounds o r,
  common_upto_bounds (min (length o) (length r) - common_prefix o r) (reverse o) (reverse r),
)

common_suffix_agree :
    (o r : Text) → drop (length o - common_suffix o r) o ≡ drop (length r - common_suffix o r) r
common_suffix_agree o r =
    drop-eq_of_reverse (common_suffix o r) o r (omega (arith, common_suffix_bounds o r))
      (omega (arith, common_suffix_bounds o r))
      (unfold common_suffix in
        common_upto_agree (min (length o) (length r) - common_prefix o r) (reverse o) (reverse r))

common_prefix_agree : (o r : Text) → take (common_prefix o r) o ≡ take (common_prefix o r) r
unfolding common_prefix
common_prefix_agree o r = common_upto_agree (min (length o) (length r)) o r

window_size : (p k : ℕ) (s : Text) → k ≤ length s → length (drop p (take k s)) ≡ k - p
window_size p k s h = omega (arith, length-drop p (take k s), length-take k s)

Window-of :
    (o r : Text) → Window o r (max (length o) (length r) - common_prefix o r - common_suffix o r)
Window-of o r =
    let p = common_prefix o r in
    let q = common_suffix o r in
    let i = length o - q in
    let j = length r - q in
    let b = common_suffix_bounds o r in
    record {
      before = take p o;
      behind = drop i o;
      old = drop p (take i o);
      new = drop p (take j r);
      original = cut_twice p i o (omega arith);
      replacement =
          cut_twice p j r (omega arith)
          ∙ ap (λ t. t ++ (drop p (take j r) ++ drop j r)) (sym (common_prefix_agree o r))
          ∙ ap (λ t. take p o ++ (drop p (take j r) ++ t)) (sym (common_suffix_agree o r));
      measured = omega (arith, b, window_size p i o (omega arith), window_size p j r (omega arith));
    }

-- The smallest window in which two texts differ.
pub record IsLeastWindow (o r : Text) (size : ℕ) : Type 0 where
  pub window : Window o r size
  pub least : (other : ℕ) → Window o r other → size ≤ other

-- The scan finds all of a common start, up to its limit.
common_upto_max : (n : ℕ) (p s t : Text) → min n (length p) ≤ common_upto n (p ++ s) (p ++ t)
unfolding common_upto
common_upto_max zero p s t = omega arith
common_upto_max (suc n) [] s t = omega arith
common_upto_max (suc n) (c ∷ p) s t = ground (arith, common_upto_max n p s t)

common_prefix_max :
    (o r : Text) (size : ℕ) (w : Window o r size) → length w.before ≤ common_prefix o r
unfolding common_prefix
common_prefix_max o r size w =
    let m = min (length o) (length r) in
    let found = common_upto_max m w.before (w.old ++ w.behind) (w.new ++ w.behind) in
    let same : common_upto m (w.before ++ (w.old ++ w.behind)) (w.before ++ (w.new ++ w.behind))
        ≡ common_upto m o r =
      ap₂ (common_upto m) (sym w.original) (sym w.replacement) in
    omega (
      arith,
      found,
      same,
      ap length w.original,
      ap length w.replacement,
      length-append w.before (w.old ++ w.behind),
      length-append w.before (w.new ++ w.behind),
    )

reverse-behind :
    (s before middle behind : Text)
    → s ≡ before ++ (middle ++ behind)
    → reverse s ≡ reverse behind ++ reverse (before ++ middle)
reverse-behind s before middle behind e =
    ap reverse (e ∙ sym (append_assoc before middle behind))
    ∙ reverse-append (before ++ middle) behind

common_suffix_max :
    (o r : Text) (size : ℕ) (w : Window o r size)
    → min (min (length o) (length r) - common_prefix o r) (length w.behind) ≤ common_suffix o r
unfolding common_suffix
common_suffix_max o r size w =
    let m = min (length o) (length r) - common_prefix o r in
    let found =
      common_upto_max m (reverse w.behind) (reverse (w.before ++ w.old))
        (reverse (w.before ++ w.new)) in
    let same : common_upto m (reverse w.behind ++ reverse (w.before ++ w.old))
          (reverse w.behind ++ reverse (w.before ++ w.new))
        ≡ common_upto m (reverse o) (reverse r) =
      ap₂ (common_upto m) (sym (reverse-behind o w.before w.old w.behind w.original))
        (sym (reverse-behind r w.before w.new w.behind w.replacement)) in
    omega (arith, found, same, length-reverse w.behind)

Window-length :
    (s before middle behind : Text)
    → s ≡ before ++ (middle ++ behind)
    → length s ≡ length before + length middle + length behind
Window-length s before middle behind e =
    omega (arith, ap length e, length-append before (middle ++ behind), length-append middle behind)

scan-least :
    (o r : Text) (size : ℕ)
    → Window o r size
    → max (length o) (length r) - common_prefix o r - common_suffix o r ≤ size
scan-least o r size w = omega (
  arith,
  w.measured,
  common_prefix_max o r size w,
  common_suffix_max o r size w,
  Window-length o w.before w.old w.behind w.original,
  Window-length r w.before w.new w.behind w.replacement,
)

-- `_changed_chars` is the size of the smallest window outside of which the two texts are the same:
-- they split into a common start, a window and a common end, the longer of the two windows has the
-- length that it returns, and no other such split has a smaller one.
pub changed_chars-Window : (o r : Text) → IsLeastWindow o r (changed_chars o r)
unfolding changed_chars
changed_chars-Window o r = elim (Bool-cases (text_eq o r)) [
  | inl same ↦ rw same (record {
    window = record {
      before = o;
      behind = [];
      old = [];
      new = [];
      original = sym (append-nil o);
      replacement = sym (text_eq→≡ o r same) ∙ sym (append-nil o);
      measured = refl;
    };
    least = λ other w. omega arith;
  })
  | inr other ↦ rw other (record { window = Window-of o r; least = scan-least o r })
]
