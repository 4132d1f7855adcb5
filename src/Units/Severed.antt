-- ===== src/Units/Severed.antt =====
-- What `split_forward_link` of core/units.py leaves of a hyphen chain.
use corrigenda.Base.{String, true, ◌≡◌, none, some, arith, eq_iff}
use corrigenda.Manifest.{LineManifest, wants_forward, wants_backward, line_ref}
use corrigenda.Pairing.{forward_partner_ref, backward_partner_ref, forward_partner_id}
use corrigenda.Units.{Severance, split_forward_link, severance}

-- What severing a link must do to the two lines at its ends.
pub record IsSevered (tail head : LineManifest) (s : Severance) : Type 0 where
  pub tail_ends : forward_partner_ref s.tail ≡ none
  pub head_starts : backward_partner_ref s.head ≡ none
  pub tail_before : backward_partner_ref s.tail ≡ backward_partner_ref tail
  pub head_after : forward_partner_ref s.head ≡ forward_partner_ref head
  pub tail_text : s.tail.ocr_text ≡ tail.ocr_text
  pub head_text : s.head.ocr_text ≡ head.ocr_text
  pub tail_ref : line_ref s.tail ≡ line_ref tail
  pub head_ref : line_ref s.head ≡ line_ref head

wants_forward_of_id :
    (tail : LineManifest) (i : String)
    → forward_partner_id tail ≡ some i
    → wants_forward tail.hyphen_role ≡ true
unfolding forward_partner_id wants_forward
wants_forward_of_id tail i p = ground arith

severance-IsSevered :
    (tail head : LineManifest)
    → wants_backward head.hyphen_role ≡ true
    → wants_forward tail.hyphen_role ≡ true
    → IsSevered tail head (severance tail head)
unfolding severance forward_partner_ref backward_partner_ref line_ref wants_forward
severance-IsSevered tail head w v = ground arith

-- When a tail continues onto a head that has a break behind it, the link can be severed, and what
-- it leaves is a tail with nothing behind it and a head with nothing before it; the tail's link
-- to the line before it, the head's link to the line after it, both texts and both identities are
-- unchanged.
pub split_forward_link-IsSevered :
    (tail head : LineManifest)
    → wants_backward head.hyphen_role ≡ true
    → forward_partner_id tail ≡ some head.line_id
    → (s : Severance) × (split_forward_link tail head ≡ some s) × IsSevered tail head s
unfolding split_forward_link
split_forward_link-IsSevered tail head w p = (
  severance tail head,
  ground (arith, eq_iff head.line_id head.line_id),
  severance-IsSevered tail head w (wants_forward_of_id tail head.line_id p),
)
