-- ===== src/Guards/Seams.antt =====
-- The two checks on adjacent lines of core/guards.py: which lines they flag.
use corrigenda.Base.{
  Bool, true, false, ◌&&◌, ◌||◌, ◌≡◌, refl, sym, ◌∙◌, ap, ◌⊎◌, ◌↔◌, List, [], ◌∷◌, Text, All,
  Bool-cases, Option-cases, inl, inr, arith,
}
use corrigenda.Floats.{Floats, Unicode}
use corrigenda.Manifest.{LineRef, ref_eq}
use corrigenda.Policies.{GuardConfig}
use corrigenda.Units.Groups.{set_ref}
use corrigenda.Units.Dict.{at_ref-set_ref}
use corrigenda.Guards.Crossing.{
  Crossing, has_migrated, has_migrated-Crossing, Crossing-has_migrated,
}
use corrigenda.Guards.{
  SegmentLine, Reverts, is_flagged, flag_both, is_duplicate, duplicates_from,
  check_adjacent_duplicates, migration, migrations_from, check_boundary_migration,
  adjacent_duplicate_detected,
}

is_flagged-flag_both :
    (a b r : LineRef) (reason : Text) (reverts : Reverts)
    → is_flagged r (flag_both a b reason reverts)
      ≡ (ref_eq a r || ref_eq b r || is_flagged r reverts)
unfolding is_flagged flag_both
is_flagged-flag_both a b r reason reverts =
    ground (
      arith,
      at_ref-set_ref b r reason (set_ref a reason reverts),
      at_ref-set_ref a r reason reverts,
    )

-- Whether `r` is on either side of a seam of which a test holds, in a run of lines from `a` on.
unfoldable pub beside :
    (SegmentLine → SegmentLine → Bool) → LineRef → SegmentLine → List SegmentLine → Bool
beside test r a [] = false
beside test r a (b ∷ rest) =
    (test a b && (ref_eq a.ref r || ref_eq b.ref r)) || beside test r b rest

unfoldable pub beside_seam : (SegmentLine → SegmentLine → Bool) → LineRef → List SegmentLine → Bool
unfolding beside
beside_seam test r [] = false
beside_seam test r (a ∷ rest) = beside test r a rest

abbrev pub Differs : LineRef → SegmentLine → Type 0
Differs r b = ref_eq r b.ref ≡ false

-- No reference comes twice.
abbrev pub IsApart : List SegmentLine → Type 0
IsApart [] = Unit
IsApart (a ∷ rest) = All (Differs a.ref) rest × IsApart rest

abbrev Unflagged : Reverts → SegmentLine → Type 0
Unflagged reverts b = is_flagged b.ref reverts ≡ false

three_false : (p q f : Bool) → p ≡ false → q ≡ false → f ≡ false → (p || q || f) ≡ false
three_false p q f ep eq ef = ground arith

or_false : (f : Bool) → f ≡ (f || false)
or_false f = ground arith

regroup : (p q f t : Bool) → ((p || q || f) || t) ≡ (f || ((p || q) || t))
regroup p q f t = ground arith

Unflagged-flag_both :
    (a b : LineRef) (reason : Text) (reverts : Reverts) (rest : List SegmentLine)
    → All (Differs a) rest
    → All (Differs b) rest
    → All (Unflagged reverts) rest
    → All (Unflagged (flag_both a b reason reverts)) rest
Unflagged-flag_both a b reason reverts [] da db u = tt
Unflagged-flag_both a b reason reverts (c ∷ rest) da db u = (
  is_flagged-flag_both a b c.ref reason reverts ∙ three_false _ _ _ da.0 db.0 u.0,
  Unflagged-flag_both a b reason reverts rest da.1 db.1 u.1,
)

module _ (fl : Floats) (config : GuardConfig fl) where
  duplicates_from-flagged :
      (r : LineRef) (a : SegmentLine) (rest : List SegmentLine) (reverts : Reverts)
      → IsApart (a ∷ rest)
      → All (Unflagged reverts) rest
      → is_flagged r (duplicates_from fl config a rest reverts)
        ≡ (is_flagged r reverts || beside (is_duplicate fl config) r a rest)
  unfolding duplicates_from beside
  duplicates_from-flagged r a [] reverts apart u = or_false _
  duplicates_from-flagged r a (b ∷ rest) reverts apart u =
      elim (Bool-cases (is_duplicate fl config a b)) [
        | inl dup ↦
            rw (u.0, dup)
              (duplicates_from-flagged r b rest
                  (flag_both a.ref b.ref adjacent_duplicate_detected reverts) apart.1
                  (Unflagged-flag_both a.ref b.ref _ reverts rest apart.0.1 apart.1.0 u.1)
                ∙ ap (λ t. t || beside (is_duplicate fl config) r b rest)
                    (is_flagged-flag_both a.ref b.ref r _ reverts)
                ∙ regroup (ref_eq a.ref r) (ref_eq b.ref r) (is_flagged r reverts)
                    (beside (is_duplicate fl config) r b rest))
        | inr not_dup ↦ rw (u.0, not_dup) (duplicates_from-flagged r b rest reverts apart.1 u.1)
      ]

  Unflagged-nil : (lines : List SegmentLine) → All (Unflagged []) lines
  unfolding is_flagged
  Unflagged-nil [] = tt
  Unflagged-nil (a ∷ lines) = (refl, Unflagged-nil lines)

  -- On lines whose references differ, the check for duplicates flags exactly the lines on either
  -- side of a seam whose two lines are duplicates, however long a run of duplicates is: passing over
  -- a line that is flagged already never spares another one.
  pub check_adjacent_duplicates-flagged :
      (lines : List SegmentLine)
      → IsApart lines
      → (r : LineRef)
      → is_flagged r (check_adjacent_duplicates fl config lines)
        ≡ beside_seam (is_duplicate fl config) r lines
  unfolding check_adjacent_duplicates beside_seam is_flagged
  check_adjacent_duplicates-flagged [] apart r = refl
  check_adjacent_duplicates-flagged (a ∷ rest) apart r =
      duplicates_from-flagged r a rest [] apart (Unflagged-nil rest)

  module _ (uni : Unicode) where
    -- A seam that a word crossed, with `r` on one of its sides, in a run of lines from `a` on.
    abbrev pub CrossedAfter : LineRef → SegmentLine → List SegmentLine → Type 0
    CrossedAfter r a [] = ⊥
    CrossedAfter r a (b ∷ rest) =
        (Crossing fl config uni a b × ((ref_eq a.ref r || ref_eq b.ref r) ≡ true))
        ⊎ CrossedAfter r b rest

    abbrev pub CrossedBeside : LineRef → List SegmentLine → Type 0
    CrossedBeside r [] = ⊥
    CrossedBeside r (a ∷ rest) = CrossedAfter r a rest

    beside-CrossedAfter :
        (r : LineRef) (a : SegmentLine) (rest : List SegmentLine)
        → (beside (has_migrated fl config uni) r a rest ≡ true) ↔ CrossedAfter r a rest
    unfolding beside
    beside-CrossedAfter r a [] = (λ h. cc, λ h. absurd h)
    beside-CrossedAfter r a (b ∷ rest) =
        let later = beside-CrossedAfter r b rest in
        (
          λ h.
              elim (Bool-cases
                (has_migrated fl config uni a b && (ref_eq a.ref r || ref_eq b.ref r))) [
                  | inl e ↦
                      inl (has_migrated-Crossing fl config uni a b (ground arith), ground arith)
                  | inr e ↦ inr (later.0 (ground arith))
                ],
          λ h. elim h [
            | inl p ↦ ground (arith, Crossing-has_migrated fl config uni a b p.0, p.1)
            | inr p ↦ ground (arith, later.1 p)
          ],
        )

    migrations_from-flagged :
        (r : LineRef) (a : SegmentLine) (rest : List SegmentLine) (reverts : Reverts)
        → is_flagged r (migrations_from fl config uni a rest reverts)
          ≡ (is_flagged r reverts || beside (has_migrated fl config uni) r a rest)
    unfolding migrations_from beside has_migrated
    migrations_from-flagged r a [] reverts = or_false _
    migrations_from-flagged r a (b ∷ rest) reverts =
        elim (Option-cases (migration fl config uni a b)) [
          | inl none_moved ↦
              rw (none_moved, has_migrated) (migrations_from-flagged r b rest reverts)
          | inr (reason, moved) ↦
              rw (moved, has_migrated)
                (migrations_from-flagged r b rest (flag_both a.ref b.ref reason reverts)
                  ∙ ap (λ t. t || beside (has_migrated fl config uni) r b rest)
                      (is_flagged-flag_both a.ref b.ref r reason reverts)
                  ∙ regroup (ref_eq a.ref r) (ref_eq b.ref r) (is_flagged r reverts)
                      (beside (has_migrated fl config uni) r b rest))
        ]

    -- The search for migrated words flags exactly the lines on either side of a seam that a word
    -- crossed: both lines of such a seam and no other line. A word crosses the seam of two lines that
    -- have words in the source where the last word of the first line or the first word of the second
    -- changed and resembles the two joined, above the threshold and more than its own source by the
    -- margin; or where the correction of one line has, but for case, the other line's word at the
    -- seam in place of its own, and the other line no longer has it there.
    pub check_boundary_migration-flagged :
        (lines : List SegmentLine) (r : LineRef)
        → (is_flagged r (check_boundary_migration fl config uni lines) ≡ true)
          ↔ CrossedBeside r lines
    unfolding check_boundary_migration is_flagged
    check_boundary_migration-flagged [] r = (λ h. cc, λ h. absurd h)
    check_boundary_migration-flagged (a ∷ rest) r =
        let flags = migrations_from-flagged r a rest [] in
        let seams = beside-CrossedAfter r a rest in
        (λ h. seams.0 (sym flags ∙ h), λ h. flags ∙ seams.1 h)
