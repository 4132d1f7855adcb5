-- ===== src/ChunkReconcile/Keeps.antt =====
-- The claims that `_claim_joins` of core/reconcile.py has made, and keeps.
use mathlib.Core.Path.{subst}
use mathlib.Core.Option.{none-ne-some}
use corrigenda.Base.{
  ◌≡◌, ◌≢◌, refl, sym, ◌∙◌, ap, inl, inr, true, false, Option, none, some, List, [], ◌∷◌, ◌++◌,
  str_eq, Any, Bool-cases, Option-cases, if◌then◌else◌, arith,
}
use corrigenda.Manifest.{LineManifest, LineRef, line_ref}
use corrigenda.Pairing.{forward_partner_ref, backward_partner_ref}
use corrigenda.Units.Groups.{at_ref}
use corrigenda.Units.Dict.{ref_eq_refl, at_ref-set_ref}
use corrigenda.LineAcceptance.{Partners}
use corrigenda.ChunkReconcile.{
  Join, Direction, MissingPartner, Claims, is_both, claim, note_missing, claim_head, claim_tail,
  resolve, claim_outgoing, claim_incoming, claim_lines,
}
use corrigenda.ChunkReconcile.Owned.{outgoing, outgoing_absent, incoming, incoming_absent}

-- A join is claimed for the tail with that reference.
abbrev pub HasJoin : Claims → LineRef → Type 0
HasJoin c r = at_ref r c.joins ≢ none

abbrev Same : MissingPartner → MissingPartner → Type 0
Same m n = n ≡ m

-- The partner is reported as missing.
abbrev pub IsReported : Claims → MissingPartner → Type 0
IsReported c m = Any (Same m) c.missing

-- What a missing partner is reported as.
abbrev pub missing_of : LineManifest → LineRef → Direction → MissingPartner
missing_of lm r direction = record {
  line_id = lm.line_id;
  missing_partner_id = r.line_id;
  direction = direction;
}

abbrev pub outgoing_direction : LineManifest → Direction
outgoing_direction lm = if is_both lm.hyphen_role then Direction.forward else Direction.backward

-- Later claims keep the earlier ones.
pub record Keeps (c d : Claims) : Type 0 where
  pub joins_kept : (r : LineRef) → HasJoin c r → HasJoin d r
  pub reports_kept : (m : MissingPartner) → IsReported c m → IsReported d m

Keeps-refl : (c : Claims) → Keeps c c
Keeps-refl c = record { joins_kept = λ r h. h; reports_kept = λ m h. h }

Keeps-trans : (c d e : Claims) → Keeps c d → Keeps d e → Keeps c e
Keeps-trans c d e h k = record {
  joins_kept = λ r j. k.joins_kept r (h.joins_kept r j);
  reports_kept = λ m j. k.reports_kept m (h.reports_kept m j);
}

abbrev join_of : LineManifest → LineManifest → Join
join_of tail head = record {
  tail = line_ref tail;
  head = line_ref head;
  is_forward = is_both tail.hyphen_role;
}

claim-Keeps : (tail head : LineManifest) (c : Claims) → Keeps c (claim tail head c)
unfolding claim
claim-Keeps tail head c = record {
  joins_kept =
      λ r there e. ground (arith, at_ref-set_ref (line_ref tail) r (join_of tail head) c.joins);
  reports_kept = λ m h. h;
}

pub claim-HasJoin :
    (tail head : LineManifest) (c : Claims) → HasJoin (claim tail head c) (line_ref tail)
unfolding claim
claim-HasJoin tail head c e = none-ne-some (join_of tail head) (
    sym e
    ∙ at_ref-set_ref (line_ref tail) (line_ref tail) (join_of tail head) c.joins
    ∙ rw (ref_eq_refl (line_ref tail)) refl)

reported_before :
    (m : MissingPartner) (ms ns : List MissingPartner) → Any (Same m) ms → Any (Same m) (ms ++ ns)
reported_before m [] ns h = absurd h
reported_before m (n ∷ ms) ns (inl e) = inl e
reported_before m (n ∷ ms) ns (inr h) = inr (reported_before m ms ns h)

reported_last : (m : MissingPartner) (ms : List MissingPartner) → Any (Same m) (ms ++ m ∷ [])
reported_last m [] = inl refl
reported_last m (n ∷ ms) = inr (reported_last m ms)

note_missing-Keeps :
    (lm : LineManifest) (r : LineRef) (d : Direction) (c : Claims) → Keeps c (note_missing lm r d c)
unfolding note_missing
note_missing-Keeps lm r d c = record {
  joins_kept = λ q h. h;
  reports_kept = λ m h. reported_before m c.missing _ h;
}

pub note_missing-IsReported :
    (lm : LineManifest) (r : LineRef) (d : Direction) (c : Claims)
    → IsReported (note_missing lm r d c) (missing_of lm r d)
unfolding note_missing
note_missing-IsReported lm r d c = reported_last (missing_of lm r d) c.missing

module _ (page_lines : List LineManifest) (partners : Partners) where
  claim_head-Keeps :
      (lm : LineManifest) (r : LineRef) (found : Option LineManifest) (c : Claims)
      → Keeps c (claim_head lm r found c)
  unfolding claim_head
  claim_head-Keeps lm r none c = note_missing-Keeps lm r _ c
  claim_head-Keeps lm r (some head) c = claim-Keeps lm head c

  claim_tail-Keeps :
      (lm : LineManifest) (r : LineRef) (found : Option LineManifest) (c : Claims)
      → Keeps c (claim_tail lm r found c)
  unfolding claim_tail
  claim_tail-Keeps lm r none c = note_missing-Keeps lm r _ c
  claim_tail-Keeps lm r (some tail) c = claim-Keeps tail lm c

  -- What the claims are after a line's turn.
  pub head_claimed :
      (lm : LineManifest) (r : LineRef) (found : Option LineManifest) (c : Claims)
      → forward_partner_ref lm ≡ some r
      → str_eq r.page_id lm.page_id ≡ true
      → resolve page_lines partners r lm ≡ found
      → claim_outgoing page_lines partners lm c ≡ claim_head lm r found c
  head_claimed lm r found c e p f =
      outgoing page_lines partners lm r c e ∙ rw p refl ∙ ap (λ o. claim_head lm r o c) f

  pub tail_claimed :
      (lm : LineManifest) (r : LineRef) (found : Option LineManifest) (c : Claims)
      → backward_partner_ref lm ≡ some r
      → str_eq r.page_id lm.page_id ≡ false
      → resolve page_lines partners r lm ≡ found
      → claim_incoming page_lines partners lm c ≡ claim_tail lm r found c
  tail_claimed lm r found c e p f =
      incoming page_lines partners lm r c e ∙ rw p refl ∙ ap (λ o. claim_tail lm r o c) f

  claim_outgoing-Keeps :
      (lm : LineManifest) (c : Claims) → Keeps c (claim_outgoing page_lines partners lm c)
  claim_outgoing-Keeps lm c = elim (Option-cases (forward_partner_ref lm)) [
    | inl absent ↦
        subst (Keeps c) (sym (outgoing_absent page_lines partners lm c absent)) (Keeps-refl c)
    | inr (r, named) ↦ elim (Bool-cases (str_eq r.page_id lm.page_id)) [
      | inr away ↦
          subst (Keeps c) (sym (outgoing page_lines partners lm r c named ∙ rw away refl))
            (Keeps-refl c)
      | inl here ↦
          subst (Keeps c)
            (sym (head_claimed lm r (resolve page_lines partners r lm) c named here refl))
            (claim_head-Keeps lm r (resolve page_lines partners r lm) c)
    ]
  ]

  pub claim_incoming-Keeps :
      (lm : LineManifest) (c : Claims) → Keeps c (claim_incoming page_lines partners lm c)
  claim_incoming-Keeps lm c = elim (Option-cases (backward_partner_ref lm)) [
    | inl absent ↦
        subst (Keeps c) (sym (incoming_absent page_lines partners lm c absent)) (Keeps-refl c)
    | inr (r, named) ↦ elim (Bool-cases (str_eq r.page_id lm.page_id)) [
      | inl here ↦
          subst (Keeps c) (sym (incoming page_lines partners lm r c named ∙ rw here refl))
            (Keeps-refl c)
      | inr away ↦
          subst (Keeps c)
            (sym (tail_claimed lm r (resolve page_lines partners r lm) c named away refl))
            (claim_tail-Keeps lm r (resolve page_lines partners r lm) c)
    ]
  ]

  pub claim_lines-Keeps :
      (lines : List LineManifest) (c : Claims) → Keeps c (claim_lines page_lines partners lines c)
  unfolding claim_lines
  claim_lines-Keeps [] c = Keeps-refl c
  claim_lines-Keeps (lm ∷ lines) c =
      let one = claim_outgoing page_lines partners lm c in
      let two = claim_incoming page_lines partners lm one in
      Keeps-trans c two _
        (Keeps-trans c one two (claim_outgoing-Keeps lm c) (claim_incoming-Keeps lm one))
        (claim_lines-Keeps lines two)
