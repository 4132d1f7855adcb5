-- ===== src/Floats.antt =====
-- Python's `float` as the code uses it. The development proves nothing of rounding: the type and
-- its operations are a parameter, and a theorem holds for every choice of them.
use corrigenda.Base.{ℕ, Bool, ℤ, Text}

pub record Floats : Type 1 where
  pub Float : Type 0
  pub of_ℤ : ℤ → Float
  pub add : Float → Float → Float
  pub mul : Float → Float → Float
  pub ratio : ℕ → ℕ → Float
  pub lt : Float → Float → Bool
  pub le : Float → Float → Bool
  -- `int(x)` of a float that is not negative
  pub trunc : Float → ℕ

-- `unicodedata` as core/_norm.py and `str.isalpha` read it: NFC with case folding, and the letters.
pub record Unicode : Type 0 where
  pub ncfold : Text → Text
  pub is_alpha : ℕ → Bool
