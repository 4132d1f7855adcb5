-- ===== src/Base/Strings.antt =====
-- Python's `str` where the code walks it: the list of its code points, and the string methods
-- that the code calls (`len`, slices, `rstrip`, `strip`, `split`, `endswith`, `find`).
use Prim.Native.Char.{code}
use Prim.Native.Nat.{ℕ, ◌+◌, ◌-◌}
use Prim.Native.String.{String}
use mathlib.Core.Path.{◌≡◌, refl}
use mathlib.Core.Logic.{◌↔◌}
use mathlib.Core.Bool.{Bool, true, false, ◌&&◌, ◌||◌}
use mathlib.Core.List.{List, [], ◌∷◌}
use mathlib.Core.Option.{Option, none, some}
use native.Mathlib.Omega.{arith}
use corrigenda.Base.Tests.{leb, ◌==◌, if◌then◌else◌}
use corrigenda.Base.Lists.{take, drop}

abbrev pub Text : Type 0
Text = List ℕ

-- The code points of a literal.
abbrev pub codes : String → Text
codes String.[] = []
codes (String.◌∷◌ c s) = code c ∷ codes s

unfoldable pub text_eq : Text → Text → Bool
text_eq [] [] = true
text_eq [] (d ∷ t) = false
text_eq (c ∷ s) [] = false
text_eq (c ∷ s) (d ∷ t) = (c == d) && text_eq s t

-- `str.isspace` of one character, which is also what `split` and `strip` take for a space.
unfoldable pub is_space : ℕ → Bool
is_space c =
    (leb 9 c && leb c 13)
    || (leb 28 c && leb c 32)
    || (c == 0x85)
    || (c == 0xa0)
    || (c == 0x1680)
    || (leb 0x2000 c && leb c 0x200a)
    || (c == 0x2028)
    || (c == 0x2029)
    || (c == 0x202f)
    || (c == 0x205f)
    || (c == 0x3000)

-- `s == ""`
unfoldable pub is_empty : Text → Bool
is_empty [] = true
is_empty (c ∷ s) = false

-- One step of `rstrip`: a character that goes away only if nothing is kept behind it.
unfoldable pub keep_if : Bool → ℕ → Text → Text
keep_if true c [] = []
keep_if false c [] = c ∷ []
keep_if b c (d ∷ s) = c ∷ d ∷ s

-- `s.rstrip(chars)`, the characters given by a test.
unfoldable pub rstrip_by : (ℕ → Bool) → Text → Text
unfolding keep_if
rstrip_by p [] = []
rstrip_by p (c ∷ s) = keep_if (p c) c (rstrip_by p s)

unfoldable pub rstrip : Text → Text
unfolding rstrip_by is_space
rstrip s = rstrip_by is_space s

unfoldable pub lstrip : Text → Text
unfolding is_space
lstrip [] = []
lstrip (c ∷ s) = let rest = lstrip s in elim (is_space c) [ true ↦ rest | false ↦ c ∷ s ]

-- `s.strip()`
unfoldable pub strip : Text → Text
unfolding lstrip rstrip
strip s = lstrip (rstrip s)

-- `s.strip() == ""`
unfoldable pub is_blank : Text → Bool
unfolding strip is_empty
is_blank s = is_empty (strip s)

-- `s.endswith(chars)` for a tuple of single characters, given by a test.
unfoldable pub ends_in : (ℕ → Bool) → Text → Bool
ends_in p [] = false
ends_in p (c ∷ []) = p c
ends_in p (c ∷ d ∷ s) = ends_in p (d ∷ s)

-- Whether a word goes on at the head of a text.
unfoldable pub in_word : Text → Bool
unfolding is_space
in_word [] = false
in_word (c ∷ s) = elim (is_space c) [ true ↦ false | false ↦ true ]

unfoldable pub push_char : ℕ → List Text → List Text
push_char c [] = (c ∷ []) ∷ []
push_char c (w ∷ ws) = (c ∷ w) ∷ ws

-- `s.split()`
unfoldable pub words : Text → List Text
unfolding in_word push_char is_space
words [] = []
words (c ∷ s) =
    let ws = words s in
    if is_space c then ws else if in_word s then push_char c ws else ((c ∷ []) ∷ ws)

unfoldable pub is_prefix : Text → Text → Bool
is_prefix [] s = true
is_prefix (c ∷ m) [] = false
is_prefix (c ∷ m) (d ∷ s) = (c == d) && is_prefix m s

abbrev pub add_to : ℕ → Option ℕ → Option ℕ
add_to k none = none
add_to k (some i) = some (i + k)

-- `s.find(m)`: where `m` first stands; `none` is -1.
unfoldable pub find : Text → Text → Option ℕ
unfolding is_prefix
find m [] = if is_prefix m [] then some 0 else none
find m (c ∷ s) = let later = add_to 1 (find m s) in if is_prefix m (c ∷ s) then some 0 else later

-- `s.find(m, i)` for a text `m` that is not empty.
unfoldable pub find_from : Text → Text → ℕ → Option ℕ
unfolding find
find_from m s i = add_to i (find m (drop i s))

-- `s[a:b]` for 0 ≤ a ≤ b.
unfoldable pub slice : ℕ → ℕ → Text → Text
slice a b s = take (b - a) (drop a s)

pub text_eq→≡ : (s t : Text) → text_eq s t ≡ true → s ≡ t
unfolding text_eq
text_eq→≡ [] [] h = refl
text_eq→≡ [] (d ∷ t) h = ground arith
text_eq→≡ (c ∷ s) [] h = ground arith
text_eq→≡ (c ∷ s) (d ∷ t) h = ground (arith, text_eq→≡ s t)

pub text_eq_refl : (s : Text) → text_eq s s ≡ true
unfolding text_eq
text_eq_refl [] = refl
text_eq_refl (c ∷ s) = ground (arith, text_eq_refl s)

-- For `ground`, at each pair of texts that is compared.
pub text_eq_iff : (s t : Text) → (text_eq s t ≡ true) ↔ (s ≡ t)
text_eq_iff s t = (text_eq→≡ s t, λ e. rw e (text_eq_refl t))
