-- ===== src/ChunkReconcile/Claimed.antt =====
-- What `_claim_joins` of core/reconcile.py answers for each line of a chunk.
use corrigenda.Base.{◌≡◌, true, false, none, some, List, str_eq}
use corrigenda.Manifest.{LineManifest, LineRef, line_ref}
use corrigenda.Pairing.{forward_partner_ref, backward_partner_ref}
use corrigenda.LineAcceptance.{Partners}
use corrigenda.ChunkReconcile.{Direction, Claims, resolve}
use corrigenda.ChunkReconcile.Keeps.{HasJoin, IsReported, missing_of, outgoing_direction, Keeps}

module _ (page_lines : List LineManifest) (partners : Partners) where
  -- What a line of the chunk asks of the claims. Where it continues onto a line of its own page, the
  -- join is claimed for it, or the line is reported as missing; where it continues a line of another
  -- page, the join is claimed for that line, or that one is reported.
  pub record IsAnswered (c : Claims) (lm : LineManifest) : Type 0 where
    pub outgoing_found :
        (r : LineRef) (head : LineManifest)
        → forward_partner_ref lm ≡ some r
        → str_eq r.page_id lm.page_id ≡ true
        → resolve page_lines partners r lm ≡ some head
        → HasJoin c (line_ref lm)
    pub outgoing_missing :
        (r : LineRef)
        → forward_partner_ref lm ≡ some r
        → str_eq r.page_id lm.page_id ≡ true
        → resolve page_lines partners r lm ≡ none
        → IsReported c (missing_of lm r (outgoing_direction lm))
    pub incoming_found :
        (r : LineRef) (tail : LineManifest)
        → backward_partner_ref lm ≡ some r
        → str_eq r.page_id lm.page_id ≡ false
        → resolve page_lines partners r lm ≡ some tail
        → HasJoin c (line_ref tail)
    pub incoming_missing :
        (r : LineRef)
        → backward_partner_ref lm ≡ some r
        → str_eq r.page_id lm.page_id ≡ false
        → resolve page_lines partners r lm ≡ none
        → IsReported c (missing_of lm r Direction.backward)
