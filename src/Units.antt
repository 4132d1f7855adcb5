-- ===== src/Units.antt =====
-- core/units.py: severing one link of a hyphen chain. The source mutates the two lines; the model
-- returns them. The planner never severs a line from itself, so `tail` and `head` are two objects.
pub mod Severed
pub mod Groups
pub mod Dict
use corrigenda.Base.{String, Bool, true, false, Option, none, some, str_eq, if◌then◌else◌}
use corrigenda.Manifest.{HyphenRole, LineManifest}
use corrigenda.Pairing.{forward_partner_id}

-- core/schemas/policies.py: the record of a severed link, carried by a chunk plan.
pub record HyphenSplit : Type 0 where
  pub page_id : String
  pub tail_line_id : String
  pub head_line_id : String

pub record Severance : Type 0 where
  pub tail : LineManifest
  pub head : LineManifest
  pub split : HyphenSplit

-- The tail keeps its backward link if it has one, and loses the forward one.
unfoldable pub cut_tail : HyphenRole → LineManifest → LineManifest
cut_tail HyphenRole.both tail = record tail {
  hyphen_role = HyphenRole.part2;
  hyphen_forward_pair_id = none;
  hyphen_forward_pair_page_id = none;
  hyphen_forward_subs_content = none;
}
cut_tail _ tail = record tail {
  hyphen_role = HyphenRole.no_role;
  hyphen_pair_line_id = none;
  hyphen_pair_page_id = none;
  hyphen_subs_content = none;
}

-- A head that was BOTH becomes the PART1 of the link it has in front; its forward fields move.
unfoldable pub cut_head : HyphenRole → LineManifest → LineManifest
cut_head HyphenRole.both head = record head {
  hyphen_role = HyphenRole.part1;
  hyphen_pair_line_id = head.hyphen_forward_pair_id;
  hyphen_pair_page_id = head.hyphen_forward_pair_page_id;
  hyphen_subs_content = head.hyphen_forward_subs_content;
  hyphen_source_explicit = head.hyphen_forward_explicit;
  hyphen_forward_pair_id = none;
  hyphen_forward_pair_page_id = none;
  hyphen_forward_subs_content = none;
}
cut_head _ head = record head {
  hyphen_role = HyphenRole.no_role;
  hyphen_pair_line_id = none;
  hyphen_pair_page_id = none;
  hyphen_subs_content = none;
}

-- `forward_partner_id(tail) == head.line_id`
unfoldable pub continues_onto : LineManifest → LineManifest → Bool
unfolding forward_partner_id
continues_onto tail head = elim (forward_partner_id tail) [
  | none ↦ false
  | some i ↦ str_eq i head.line_id
]

unfoldable pub severance : LineManifest → LineManifest → Severance
unfolding cut_tail cut_head
severance tail head = record {
  tail = cut_tail tail.hyphen_role tail;
  head = cut_head head.hyphen_role head;
  split = record {
    page_id = tail.page_id;
    tail_line_id = tail.line_id;
    head_line_id = head.line_id;
  };
}

-- `none` is the `RuntimeError` that refuses to sever a link that is not there.
unfoldable pub split_forward_link : LineManifest → LineManifest → Option Severance
unfolding continues_onto severance
split_forward_link tail head = if continues_onto tail head then some (severance tail head) else none
