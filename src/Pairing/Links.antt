-- ===== src/Pairing/Links.antt =====
-- The links that `link_hyphen_pairs` of core/pairing.py leaves behind.
use corrigenda.Base.{
  Bool, true, false, ◌≡◌, ◌⊎◌, refl, none, some, List, [], ◌∷◌, arith, All, str_eq, select, not, ap,
  map, Text, is_blank,
}
use corrigenda.Manifest.{LineManifest, line_ref}
use corrigenda.Pairing.{
  forward_partner_ref, backward_partner_ref, link_pair, link_from, link_substantive,
  link_hyphen_pairs, write_back, is_substantive,
}

-- The parsers refuse a line or a page with no id.
pub record IsNamed (lm : LineManifest) : Type 0 where
  pub line_named : str_eq lm.line_id "" ≡ false
  pub page_named : str_eq lm.page_id "" ≡ false

-- A line that no pass has linked yet, whatever role the parser gave it.
pub record IsUnlinked (lm : LineManifest) : Type 0 where
  pub named : IsNamed lm
  pub no_pair : lm.hyphen_pair_line_id ≡ none
  pub no_forward : lm.hyphen_forward_pair_id ≡ none

-- The line may still be linked to the one behind it.
pub record IsOpen (lm : LineManifest) : Type 0 where
  pub named : IsNamed lm
  pub no_partner : forward_partner_ref lm ≡ none

-- Either each of two neighbours names the other, or neither names anything there.
abbrev pub Joined : LineManifest → LineManifest → Type 0
Joined x y =
    ((forward_partner_ref x ≡ some (line_ref y)) × (backward_partner_ref y ≡ some (line_ref x)))
    ⊎ ((forward_partner_ref x ≡ none) × (backward_partner_ref y ≡ none))

abbrev pub Agree : List LineManifest → Type 0
Agree [] = Unit
Agree (x ∷ []) = forward_partner_ref x ≡ none
Agree (x ∷ y ∷ rest) = Joined x y × Agree (y ∷ rest)

abbrev texts : List LineManifest → List Text
texts = map (λ l. l.ocr_text)

IsUnlinked-IsOpen : (l : LineManifest) → IsUnlinked l → IsOpen l
unfolding forward_partner_ref
IsUnlinked-IsOpen l u = ground arith

module _ (can_pair : LineManifest → LineManifest → Bool) where
  -- Linking a line forward leaves what it says of the line before.
  backward-link_pair :
      (l c : LineManifest)
      → backward_partner_ref (link_pair can_pair l c).0 ≡ backward_partner_ref l
  unfolding link_pair backward_partner_ref
  backward-link_pair l c = ground arith

  link_pair-Joined :
      (l c : LineManifest)
      → IsOpen l
      → IsUnlinked c
      → Joined (link_pair can_pair l c).0 (link_pair can_pair l c).1
  unfolding link_pair backward_partner_ref forward_partner_ref line_ref
  link_pair-Joined l c o u = ground arith

  link_pair-IsOpen :
      (l c : LineManifest) → IsOpen l → IsUnlinked c → IsOpen (link_pair can_pair l c).1
  unfolding link_pair forward_partner_ref
  link_pair-IsOpen l c o u = ground arith

  line_ref-link_pair : (l c : LineManifest) → line_ref (link_pair can_pair l c).0 ≡ line_ref l
  unfolding link_pair line_ref
  line_ref-link_pair l c = ground arith

  text-link_pair :
      (l c : LineManifest)
      → ((link_pair can_pair l c).0.ocr_text ≡ l.ocr_text)
        × ((link_pair can_pair l c).1.ocr_text ≡ c.ocr_text)
  unfolding link_pair
  text-link_pair l c = ground arith

  -- The chain that starts at `l` says of the line before `l` what `l` says.
  Agree-link_from :
      (x l : LineManifest) (rest : List LineManifest)
      → Joined x l
      → Agree (link_from can_pair l rest)
      → Agree (x ∷ link_from can_pair l rest)
  unfolding link_from
  Agree-link_from x l [] j a = (j, a)
  Agree-link_from x l (c ∷ rest) j a =
      (ground (arith, backward-link_pair l c, line_ref-link_pair l c), a)

  link_from-Agree :
      (l : LineManifest) (rest : List LineManifest)
      → IsOpen l
      → All IsUnlinked rest
      → Agree (link_from can_pair l rest)
  unfolding link_from
  link_from-Agree l [] o u = o.no_partner
  link_from-Agree l (c ∷ rest) o (u, us) =
      Agree-link_from (link_pair can_pair l c).0 (link_pair can_pair l c).1 rest
        (link_pair-Joined l c o u)
        (link_from-Agree (link_pair can_pair l c).1 rest (link_pair-IsOpen l c o u) us)

  link_substantive-Agree :
      (lines : List LineManifest) → All IsUnlinked lines → Agree (link_substantive can_pair lines)
  unfolding link_substantive
  link_substantive-Agree [] u = tt
  link_substantive-Agree (l ∷ rest) (u, us) = link_from-Agree l rest (IsUnlinked-IsOpen l u) us

  texts-link_from :
      (l : LineManifest) (rest : List LineManifest)
      → texts (link_from can_pair l rest) ≡ l.ocr_text ∷ texts rest
  unfolding link_from
  texts-link_from l [] = refl
  texts-link_from l (c ∷ rest) = cc (
    (text-link_pair l c).0,
    (text-link_pair l c).1,
    texts-link_from (link_pair can_pair l c).1 rest,
  )

  texts-link_substantive :
      (lines : List LineManifest) → texts (link_substantive can_pair lines) ≡ texts lines
  unfolding link_substantive
  texts-link_substantive [] = refl
  texts-link_substantive (l ∷ rest) = texts-link_from l rest

nil_of_texts : (xs : List LineManifest) → [] ≡ texts xs → xs ≡ []
nil_of_texts [] e = refl
nil_of_texts (x ∷ xs) e = cc

text-is_substantive :
    (x y : LineManifest) → x.ocr_text ≡ y.ocr_text → is_substantive x ≡ is_substantive y
unfolding is_substantive
text-is_substantive x y e = ap (λ t. not (is_blank t)) e

-- Lines that read like the ones that the filter kept come back when the filter is run again.
select-write_back :
    (lines linked : List LineManifest)
    → texts linked ≡ texts (select is_substantive lines)
    → select is_substantive (write_back lines linked) ≡ linked
unfolding select write_back
select-write_back [] [] e = refl
select-write_back [] (l ∷ linked) e = cc
select-write_back (x ∷ lines) [] e = nil_of_texts _ e
select-write_back (x ∷ lines) (l ∷ linked) e = ground (
  arith,
  text-is_substantive x l,
  select-write_back lines linked,
  select-write_back lines (l ∷ linked),
)

All-select {ℓ κ} :
    {A : Type ℓ} (P : A → Type κ) (p : A → Bool) (xs : List A) → All P xs → All P (select p xs)
unfolding select
All-select P p [] h = tt
All-select P p (x ∷ xs) (h, hs) =
    elim (p x) as (λ b. All P (elim b [ true ↦ x ∷ select p xs | false ↦ select p xs ])) [
      | true ↦ (h, All-select P p xs hs)
      | false ↦ All-select P p xs hs
    ]

-- After the pass over the fresh lines of a page, any two lines that follow one another, lines with
-- no text aside, agree: either each names the other as its partner across the break, or neither
-- names a partner there; and the last one names no line behind it.
pub link_hyphen_pairs-Agree :
    (can_pair : LineManifest → LineManifest → Bool) (lines : List LineManifest)
    → All IsUnlinked lines
    → Agree (select is_substantive (link_hyphen_pairs can_pair lines))
unfolding link_hyphen_pairs
link_hyphen_pairs-Agree can_pair lines u =
    rw (select-write_back lines _ (texts-link_substantive can_pair (select is_substantive lines)))
      (link_substantive-Agree can_pair _ (All-select IsUnlinked is_substantive lines u))
