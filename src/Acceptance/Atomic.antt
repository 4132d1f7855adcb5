-- ===== src/Acceptance/Atomic.antt =====
-- `_apply_unit_reverts` of core/acceptance.py as a whole.
use corrigenda.Base.{true, ◌≡◌, ◌≢◌, ◌⊎◌, sym, inl, some, List, [], ◌∷◌, Text, arith}
use corrigenda.Manifest.{LineRef, PageManifest}
use corrigenda.Units.Groups.{HyphenGroup, at_ref, ref_in, derive_hyphen_groups}
use corrigenda.Guards.{Reverts, is_flagged}
use corrigenda.Acceptance.{Document, document_lines, group_by_line, pull_units, apply_unit_reverts}
use corrigenda.Acceptance.Settled.{settled, map_pages, map_pages_same, revert_all-map}
use corrigenda.Acceptance.Pulled.{IsPulled, pull_units-kept, pull_units-pulled, pull_units-origin}

-- What the reverts do to a document: `result` is what `_apply_unit_reverts` returns, and the document
-- after it.
pub record IsAtomic (reverts : Reverts) (reason : Text) (d : Document) (result : Reverts × Document)
    : Type 0 where
  pub settles : result.1.pages ≡ map_pages (settled result.0) d.pages
  pub own : (r : LineRef) (x : Text) → at_ref r reverts ≡ some x → at_ref r result.0 ≡ some x
  pub whole :
      (r m : LineRef) (g : HyphenGroup)
      → is_flagged r reverts ≡ true
      → group_by_line (derive_hyphen_groups (document_lines d.pages)) r ≡ some g
      → ref_in m g.members ≡ true
      → is_flagged m result.0 ≡ true
  pub only :
      (m : LineRef) (x : Text)
      → at_ref m result.0 ≡ some x
      → (at_ref m reverts ≡ some x)
        ⊎ IsPulled reason (derive_hyphen_groups (document_lines d.pages)) reverts m x

pub is_flagged-some :
    (r : LineRef) (reverts : Reverts)
    → is_flagged r reverts ≡ true
    → (x : Text) × (at_ref r reverts ≡ some x)
unfolding is_flagged
is_flagged-some r reverts h = ground arith

pub some-is_flagged :
    (r : LineRef) (reverts : Reverts) (x : Text)
    → at_ref r reverts ≡ some x
    → is_flagged r reverts ≡ true
unfolding is_flagged
some-is_flagged r reverts x e = rw (e, is_flagged)

nothing_reverted : (pages : List PageManifest) → pages ≡ map_pages (settled []) pages
unfolding settled is_flagged at_ref
nothing_reverted pages = sym (map_pages_same pages)

pub none_flagged : (r : LineRef) → is_flagged r [] ≢ true
unfolding is_flagged at_ref
none_flagged r h = cc

-- After the reverts, a line of the document is as it was if its reference is not in the map returned,
-- and else at its source text with the status FALLBACK. The map has every line that was flagged,
-- under its own reason; every member of the hyphen unit of a line that was flagged; and no other,
-- the members that were pulled under the reason of the pass.
pub apply_unit_reverts-IsAtomic :
    (reverts : Reverts) (reason : Text) (d : Document)
    → IsAtomic reverts reason d (apply_unit_reverts reverts reason d)
unfolding apply_unit_reverts
apply_unit_reverts-IsAtomic [] reason d = record {
  settles = nothing_reverted d.pages;
  own = λ r x e. e;
  whole = λ r m g f e h. absurd (none_flagged r f);
  only = λ m x e. inl e;
}
apply_unit_reverts-IsAtomic (first ∷ reverts) reason d =
    let groups = derive_hyphen_groups (document_lines d.pages) in
    let all = first ∷ reverts in
    record {
      settles = revert_all-map (pull_units reason groups all all) d.pages d.traces;
      own = λ r x e. pull_units-kept reason groups all all r x e;
      whole = λ r m g f e h.
          let (x, there) = is_flagged-some r all f in
          let (y, pulled) = pull_units-pulled reason groups all all r m g x there e h in
          some-is_flagged m (pull_units reason groups all all) y pulled;
      only = λ m x e. pull_units-origin reason groups all all m x e;
    }
