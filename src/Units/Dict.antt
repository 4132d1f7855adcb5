-- ===== src/Units/Dict.antt =====
-- Dictionaries by line reference, as core/units.py, core/guards.py and core/acceptance.py use them.
use corrigenda.Base.{
  All, false, true, ◌≡◌, ◌↔◌, refl, eq_iff, some, List, [], ◌∷◌, if◌then◌else◌, arith,
}
use corrigenda.Manifest.{LineManifest, LineRef, line_ref, ref_eq}
use corrigenda.Units.Groups.{at_ref, set_ref}

pub ref_eq→≡ : (a b : LineRef) → ref_eq a b ≡ true → a ≡ b
ref_eq→≡ a b h = ground (arith, eq_iff a.page_id b.page_id, eq_iff a.line_id b.line_id)

pub ref_eq_refl : (a : LineRef) → ref_eq a a ≡ true
ref_eq_refl a = ground (arith, eq_iff a.page_id a.page_id, eq_iff a.line_id a.line_id)

pub ref_eq_iff : (a b : LineRef) → (ref_eq a b ≡ true) ↔ (a ≡ b)
ref_eq_iff a b = (ref_eq→≡ a b, λ e. rw e (ref_eq_refl b))

pub at_ref-set_ref {ℓ} :
    {A : Type ℓ} (q r : LineRef) (a : A) (d : List (LineRef × A))
    → at_ref r (set_ref q a d) ≡ (if ref_eq q r then some a else at_ref r d)
unfolding at_ref set_ref
at_ref-set_ref q r a [] = refl
at_ref-set_ref q r a ((p, b) ∷ d) =
    ground (arith, ref_eq_iff p q, ref_eq_iff q r, ref_eq_iff p r, at_ref-set_ref q r a d)

-- No two lines have one reference.
abbrev pub HasOtherRef : LineRef → LineManifest → Type 0
HasOtherRef r lm = ref_eq (line_ref lm) r ≡ false

abbrev pub IsApart : List LineManifest → Type 0
IsApart [] = Unit
IsApart (lm ∷ lines) = All (HasOtherRef (line_ref lm)) lines × IsApart lines
