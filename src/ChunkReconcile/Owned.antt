-- ===== src/ChunkReconcile/Owned.antt =====
-- The joins that `_claim_joins` of core/reconcile.py claims for a chunk.
use mathlib.Core.Path.{subst}
use mathlib.Core.Option.{none-ne-some}
use corrigenda.Base.{
  ◌≡◌, ◌≢◌, ◌⊎◌, refl, sym, ◌∙◌, inl, inr, true, false, Option, none, some, List, [], ◌∷◌, str_eq,
  All, Bool-cases, Option-cases, if◌then◌else◌, arith,
}
use corrigenda.Manifest.{LineManifest, LineRef, line_ref, ref_eq}
use corrigenda.Pairing.{forward_partner_ref, backward_partner_ref}
use corrigenda.Units.Groups.{at_ref, set_ref}
use corrigenda.Units.Dict.{ref_eq→≡, ref_eq_refl, at_ref-set_ref}
use corrigenda.LineAcceptance.{Partners}
use corrigenda.ChunkReconcile.{
  Join, Pool, Claims, is_both, claim, note_missing, claim_head, claim_tail, resolve, claim_outgoing,
  claim_incoming, claim_lines, claim_joins,
}

pub IsPooled : Pool → LineRef → Type 0
IsPooled pool r = at_ref r pool ≢ none

set_ref-here : (r : LineRef) (lm : LineManifest) (pool : Pool) → IsPooled (set_ref r lm pool) r
unfolding IsPooled
set_ref-here r lm pool e =
    let found : at_ref r (set_ref r lm pool) ≡ some lm =
      at_ref-set_ref r r lm pool ∙ rw (ref_eq_refl r) refl in
    none-ne-some lm (sym e ∙ found)

set_ref-IsPooled :
    (q r : LineRef) (lm : LineManifest) (pool : Pool)
    → IsPooled pool r
    → IsPooled (set_ref q lm pool) r
unfolding IsPooled
set_ref-IsPooled q r lm pool there e = ground (arith, at_ref-set_ref q r lm pool)

claim-IsPooled :
    (tail head : LineManifest) (c : Claims) (r : LineRef)
    → IsPooled c.pool r
    → IsPooled (claim tail head c).pool r
unfolding claim
claim-IsPooled tail head c r there =
    set_ref-IsPooled (line_ref head) r head (set_ref (line_ref tail) tail c.pool)
      (set_ref-IsPooled (line_ref tail) r tail c.pool there)

All-set_ref {ℓ} :
    {A : Type ℓ} (P : LineRef × A → Type 0) (k : LineRef) (a : A) (d : List (LineRef × A))
    → P (k, a)
    → All P d
    → All P (set_ref k a d)
unfolding set_ref
All-set_ref P k a [] here all = (here, tt)
All-set_ref P k a ((q, b) ∷ d) here (p, ps) = elim (Bool-cases (ref_eq q k)) [
  | inl same ↦ rw same (subst (λ t. P (t, a)) (sym (ref_eq→≡ q k same)) here, ps)
  | inr other ↦ rw other (p, All-set_ref P k a d here ps)
]

module _ (page_lines : List LineManifest) (partners : Partners) where
  -- The tail's line names the head on its own page, or the head's line names the tail on another: one
  -- of the two, seen from the line that owns the join.
  pub IsLinked : LineManifest → LineManifest → Type 0
  IsLinked tail head =
      ((r : LineRef) × (forward_partner_ref tail ≡ some r)
        × (str_eq r.page_id tail.page_id ≡ true)
        × (resolve page_lines partners r tail ≡ some head))
      ⊎ ((r : LineRef) × (backward_partner_ref head ≡ some r)
          × (str_eq r.page_id head.page_id ≡ false)
          × (resolve page_lines partners r head ≡ some tail))

  -- A join of two linked lines, both in the pool.
  pub record IsOwned (pool : Pool) (entry : LineRef × Join) : Type 0 where
    pub tail : LineManifest
    pub head : LineManifest
    pub linked : IsLinked tail head
    pub is_join : entry.1 ≡ record {
      tail = line_ref tail;
      head = line_ref head;
      is_forward = is_both tail.hyphen_role;
    }
    pub is_key : entry.0 ≡ line_ref tail
    pub has_tail : IsPooled pool (line_ref tail)
    pub has_head : IsPooled pool (line_ref head)

  pub AllOwned : Claims → Type 0
  AllOwned c = All (IsOwned c.pool) c.joins

  IsOwned-claim :
      (tail head : LineManifest) (c : Claims) (entries : List (LineRef × Join))
      → All (IsOwned c.pool) entries
      → All (IsOwned (claim tail head c).pool) entries
  IsOwned-claim tail head c [] all = tt
  IsOwned-claim tail head c (entry ∷ entries) (o, os) = (
    record {
      tail = o.tail;
      head = o.head;
      linked = o.linked;
      is_join = o.is_join;
      is_key = o.is_key;
      has_tail = claim-IsPooled tail head c _ o.has_tail;
      has_head = claim-IsPooled tail head c _ o.has_head;
    },
    IsOwned-claim tail head c entries os,
  )

  claim-AllOwned :
      (tail head : LineManifest) (c : Claims)
      → IsLinked tail head
      → AllOwned c
      → AllOwned (claim tail head c)
  unfolding claim AllOwned
  claim-AllOwned tail head c linked all =
      All-set_ref (IsOwned (claim tail head c).pool) (line_ref tail) _ c.joins
        (record {
          tail = tail;
          head = head;
          linked = linked;
          is_join = refl;
          is_key = refl;
          has_tail =
              set_ref-IsPooled (line_ref head) (line_ref tail) head
                (set_ref (line_ref tail) tail c.pool) (set_ref-here (line_ref tail) tail c.pool);
          has_head = set_ref-here (line_ref head) head (set_ref (line_ref tail) tail c.pool);
        })
        (IsOwned-claim tail head c c.joins all)

  pub outgoing_absent :
      (lm : LineManifest) (c : Claims)
      → forward_partner_ref lm ≡ none
      → claim_outgoing page_lines partners lm c ≡ c
  unfolding claim_outgoing
  outgoing_absent lm c absent = rw (absent, claim_outgoing) refl

  pub outgoing :
      (lm : LineManifest) (r : LineRef) (c : Claims)
      → forward_partner_ref lm ≡ some r
      → claim_outgoing page_lines partners lm c ≡ (
          if str_eq r.page_id lm.page_id
          then claim_head lm r (resolve page_lines partners r lm) c
          else c)
  unfolding claim_outgoing
  outgoing lm r c named = rw (named, claim_outgoing) refl

  pub incoming_absent :
      (lm : LineManifest) (c : Claims)
      → backward_partner_ref lm ≡ none
      → claim_incoming page_lines partners lm c ≡ c
  unfolding claim_incoming
  incoming_absent lm c absent = rw (absent, claim_incoming) refl

  pub incoming :
      (lm : LineManifest) (r : LineRef) (c : Claims)
      → backward_partner_ref lm ≡ some r
      → claim_incoming page_lines partners lm c ≡ (
          if str_eq r.page_id lm.page_id
          then c
          else claim_tail lm r (resolve page_lines partners r lm) c)
  unfolding claim_incoming
  incoming lm r c named = rw (named, claim_incoming) refl

  claim_head-AllOwned :
      (lm : LineManifest) (r : LineRef) (found : Option LineManifest) (c : Claims)
      → forward_partner_ref lm ≡ some r
      → str_eq r.page_id lm.page_id ≡ true
      → resolve page_lines partners r lm ≡ found
      → AllOwned c
      → AllOwned (claim_head lm r found c)
  unfolding claim_head note_missing AllOwned IsLinked
  claim_head-AllOwned lm r none c named here e all = all
  claim_head-AllOwned lm r (some head) c named here e all =
      claim-AllOwned lm head c (inl (r, named, here, e)) all

  claim_tail-AllOwned :
      (lm : LineManifest) (r : LineRef) (found : Option LineManifest) (c : Claims)
      → backward_partner_ref lm ≡ some r
      → str_eq r.page_id lm.page_id ≡ false
      → resolve page_lines partners r lm ≡ found
      → AllOwned c
      → AllOwned (claim_tail lm r found c)
  unfolding claim_tail note_missing AllOwned IsLinked
  claim_tail-AllOwned lm r none c named away e all = all
  claim_tail-AllOwned lm r (some tail) c named away e all =
      claim-AllOwned tail lm c (inr (r, named, away, e)) all

  claim_outgoing-AllOwned :
      (lm : LineManifest) (c : Claims)
      → AllOwned c
      → AllOwned (claim_outgoing page_lines partners lm c)
  claim_outgoing-AllOwned lm c all = elim (Option-cases (forward_partner_ref lm)) [
    | inl absent ↦ subst AllOwned (sym (outgoing_absent lm c absent)) all
    | inr (r, named) ↦ elim (Bool-cases (str_eq r.page_id lm.page_id)) [
      | inr away ↦ subst AllOwned (sym (outgoing lm r c named ∙ rw away refl)) all
      | inl here ↦
          subst AllOwned (sym (outgoing lm r c named ∙ rw here refl))
            (claim_head-AllOwned lm r _ c named here refl all)
    ]
  ]

  claim_incoming-AllOwned :
      (lm : LineManifest) (c : Claims)
      → AllOwned c
      → AllOwned (claim_incoming page_lines partners lm c)
  claim_incoming-AllOwned lm c all = elim (Option-cases (backward_partner_ref lm)) [
    | inl absent ↦ subst AllOwned (sym (incoming_absent lm c absent)) all
    | inr (r, named) ↦ elim (Bool-cases (str_eq r.page_id lm.page_id)) [
      | inl here ↦ subst AllOwned (sym (incoming lm r c named ∙ rw here refl)) all
      | inr away ↦
          subst AllOwned (sym (incoming lm r c named ∙ rw away refl))
            (claim_tail-AllOwned lm r _ c named away refl all)
    ]
  ]

  claim_lines-AllOwned :
      (lines : List LineManifest) (c : Claims)
      → AllOwned c
      → AllOwned (claim_lines page_lines partners lines c)
  unfolding claim_lines
  claim_lines-AllOwned [] c all = all
  claim_lines-AllOwned (lm ∷ lines) c all =
      claim_lines-AllOwned lines _ (claim_incoming-AllOwned lm _ (claim_outgoing-AllOwned lm c all))

  -- Every join that a chunk claims has both its lines in the pool and links them: on the page of its
  -- tail if the tail's line claimed it, and from another page if the head's line did.
  pub claim_joins-AllOwned :
      (chunk_lines : List LineManifest) → AllOwned (claim_joins page_lines partners chunk_lines)
  unfolding claim_joins AllOwned
  claim_joins-AllOwned chunk_lines = claim_lines-AllOwned chunk_lines _ tt
