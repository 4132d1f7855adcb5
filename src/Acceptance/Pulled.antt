-- ===== src/Acceptance/Pulled.antt =====
-- The units that `_apply_unit_reverts` of core/acceptance.py pulls along.
use corrigenda.Base.{
  true, ◌≡◌, ◌⊎◌, refl, inl, inr, some, List, [], ◌∷◌, Text, Bool-cases, Option-cases,
  if◌then◌else◌, arith,
}
use corrigenda.Manifest.{LineRef, ref_eq}
use corrigenda.Units.Groups.{HyphenGroup, at_ref, set_ref, ref_in}
use corrigenda.Units.Dict.{ref_eq→≡, ref_eq_iff, ref_eq_refl, at_ref-set_ref}
use corrigenda.Guards.{Reverts, is_flagged}
use corrigenda.Acceptance.{group_by_line, pull_members, pull_units}

pull_members-kept :
    (reason : Text) (members : List LineRef) (to_revert : Reverts) (r : LineRef) (x : Text)
    → at_ref r to_revert ≡ some x
    → at_ref r (pull_members reason members to_revert) ≡ some x
unfolding pull_members is_flagged
pull_members-kept reason [] to_revert r x e = e
pull_members-kept reason (m ∷ members) to_revert r x e =
    pull_members-kept reason members _ r x
      (ground (arith, at_ref-set_ref m r reason to_revert, ref_eq_iff m r))

pull_one-there :
    (reason : Text) (p : LineRef) (to_revert : Reverts)
    → (x : Text) × (at_ref p
          (if is_flagged p to_revert then to_revert else set_ref p reason to_revert)
        ≡ some x)
unfolding is_flagged
pull_one-there reason p to_revert = elim (Option-cases (at_ref p to_revert)) [
  | inl missing ↦ (reason, ground (arith, at_ref-set_ref p p reason to_revert, ref_eq_refl p))
  | inr (x, there) ↦ (x, ground arith)
]

pull_one-origin :
    (reason : Text) (p m : LineRef) (to_revert : Reverts) (x : Text)
    → at_ref m (if is_flagged p to_revert then to_revert else set_ref p reason to_revert) ≡ some x
    → (at_ref m to_revert ≡ some x) ⊎ ((ref_eq m p ≡ true) × (x ≡ reason))
pull_one-origin reason p m to_revert x e = elim (Bool-cases (is_flagged p to_revert)) [
  | inl there ↦ inl (rw there at e)
  | inr missing ↦
      let now = rw (missing, at_ref-set_ref p m reason to_revert) at e in
      elim (Bool-cases (ref_eq p m)) [
        | inl same ↦
            let is_reason : some reason ≡ some x = rw same at now in
            inr (rw (ref_eq→≡ p m same) (ref_eq_refl m), cc)
        | inr other ↦ inl (rw other at now)
      ]
]

pull_members-pulled :
    (reason : Text) (members : List LineRef) (to_revert : Reverts) (m : LineRef)
    → ref_in m members ≡ true
    → (x : Text) × (at_ref m (pull_members reason members to_revert) ≡ some x)
unfolding pull_members ref_in is_flagged
pull_members-pulled reason [] to_revert m h = absurd (cc)
pull_members-pulled reason (p ∷ members) to_revert m h = elim (Bool-cases (ref_eq m p)) [
  | inl same ↦
      let (x, there) = pull_one-there reason p to_revert in
      (x, pull_members-kept reason members _ m x (rw (ref_eq→≡ m p same) there))
  | inr other ↦ pull_members-pulled reason members _ m (ground arith)
]

pull_members-origin :
    (reason : Text) (members : List LineRef) (to_revert : Reverts) (m : LineRef) (x : Text)
    → at_ref m (pull_members reason members to_revert) ≡ some x
    → (at_ref m to_revert ≡ some x) ⊎ ((ref_in m members ≡ true) × (x ≡ reason))
unfolding pull_members ref_in is_flagged
pull_members-origin reason [] to_revert m x e = inl e
pull_members-origin reason (p ∷ members) to_revert m x e =
    elim (pull_members-origin reason members _ m x e) [
      | inl before ↦ elim (pull_one-origin reason p m to_revert x before) [
        | inl old ↦ inl old
        | inr (same, is_reason) ↦ inr (rw same refl, is_reason)
      ]
      | inr (later, is_reason) ↦ inr (ground arith, is_reason)
    ]

first_flagged :
    (q : LineRef) (own : Text) (reverts : Reverts) → is_flagged q ((q, own) ∷ reverts) ≡ true
unfolding is_flagged at_ref
first_flagged q own reverts = ground (arith, ref_eq_refl q)

later_flagged :
    (q r : LineRef) (own : Text) (reverts : Reverts)
    → is_flagged r reverts ≡ true
    → is_flagged r ((q, own) ∷ reverts) ≡ true
unfolding is_flagged at_ref
later_flagged q r own reverts h = ground arith

module _ (reason : Text) (groups : List HyphenGroup) where
  pub pull_units-kept :
      (reverts to_revert : Reverts) (r : LineRef) (x : Text)
      → at_ref r to_revert ≡ some x
      → at_ref r (pull_units reason groups reverts to_revert) ≡ some x
  unfolding pull_units
  pull_units-kept [] to_revert r x e = e
  pull_units-kept ((q, own) ∷ reverts) to_revert r x e =
      elim (Option-cases (group_by_line groups q)) [
        | inl alone ↦ rw (alone, pull_units) (pull_units-kept reverts to_revert r x e)
        | inr (g, is_g) ↦
            rw (is_g, pull_units)
              (pull_units-kept reverts _ r x (pull_members-kept reason g.members to_revert r x e))
      ]

  -- A member of the unit of a line that is flagged is pulled.
  pub pull_units-pulled :
      (reverts to_revert : Reverts) (r m : LineRef) (g : HyphenGroup) (own : Text)
      → at_ref r reverts ≡ some own
      → group_by_line groups r ≡ some g
      → ref_in m g.members ≡ true
      → (x : Text) × (at_ref m (pull_units reason groups reverts to_revert) ≡ some x)
  unfolding pull_units at_ref
  pull_units-pulled [] to_revert r m g own e is_g h = absurd (cc)
  pull_units-pulled ((q, o) ∷ reverts) to_revert r m g own e is_g h =
      elim (Bool-cases (ref_eq q r)) [
        | inl same ↦
            let here : group_by_line groups q ≡ some g = rw (ref_eq→≡ q r same) is_g in
            let (x, there) = pull_members-pulled reason g.members to_revert m h in
            rw (here, pull_units) (x, pull_units-kept reverts _ m x there)
        | inr other ↦
            let later : at_ref r reverts ≡ some own = rw other at e in
            pull_units-pulled reverts _ r m g own later is_g h
      ]

  -- What is pulled is a member of the unit of a line that is flagged, and gets the pass's reason.
  pub record IsPulled (reverts : Reverts) (m : LineRef) (x : Text) : Type 0 where
    pub flagged : LineRef
    pub unit : HyphenGroup
    pub is_flag : is_flagged flagged reverts ≡ true
    pub is_unit : group_by_line groups flagged ≡ some unit
    pub is_member : ref_in m unit.members ≡ true
    pub is_reason : x ≡ reason

  pub pull_units-origin :
      (reverts to_revert : Reverts) (m : LineRef) (x : Text)
      → at_ref m (pull_units reason groups reverts to_revert) ≡ some x
      → (at_ref m to_revert ≡ some x) ⊎ IsPulled reverts m x
  unfolding pull_units
  pull_units-origin [] to_revert m x e = inl e
  pull_units-origin ((q, own) ∷ reverts) to_revert m x e =
      elim (pull_units-origin reverts _ m x e) [
        | inl before ↦ elim (Option-cases (group_by_line groups q)) [
          | inl alone ↦ inl (rw alone at before)
          | inr (g, is_g) ↦
              let pulled : at_ref m (pull_members reason g.members to_revert) ≡ some x =
                rw is_g at before in
              elim (pull_members-origin reason g.members to_revert m x pulled) [
                | inl old ↦ inl old
                | inr (member, is_x) ↦ inr (record {
                  flagged = q;
                  unit = g;
                  is_flag = first_flagged q own reverts;
                  is_unit = is_g;
                  is_member = member;
                  is_reason = is_x;
                })
              ]
        ]
        | inr p ↦ inr (record {
          flagged = p.flagged;
          unit = p.unit;
          is_flag = later_flagged q p.flagged own reverts p.is_flag;
          is_unit = p.is_unit;
          is_member = p.is_member;
          is_reason = p.is_reason;
        })
      ]
