-- ===== src/PageUnits.antt =====
-- The questions about units that core/reconcile.py answers for the rest of the engine, with
-- `units_containing` of core/units.py. A dictionary that is only read is a function.
use corrigenda.Base.{
  ltb, length, Bool, false, not, ◌&&◌, ◌||◌, Option, none, some, List, [], ◌∷◌, ◌++◌, String, is_in,
  assign, if◌then◌else◌,
}
use corrigenda.Manifest.{
  LineManifest, LineRef, HyphenRole, BlockManifest, PageManifest, line_ref, truthy,
}
use corrigenda.Units.Groups.{
  HyphenGroup, at_ref, set_ref, ref_in, index_lines, derive_hyphen_groups,
}
use corrigenda.Acceptance.{group_by_line}
use corrigenda.ChunkReconcile.{Pool}

unfoldable pub ids_of_chunk : List LineManifest → List String
ids_of_chunk [] = []
ids_of_chunk (lm ∷ lines) = lm.line_id ∷ ids_of_chunk lines

-- `_page_local_units`: the whole units of a page, by member; a later unit's entry wins.
unfoldable pub ids_of_refs : List LineRef → List String
ids_of_refs [] = []
ids_of_refs (r ∷ refs) = r.line_id ∷ ids_of_refs refs

unfoldable pub local_units_of : List HyphenGroup → String → Option (List String)
unfolding ids_of_refs is_in
local_units_of [] i = none
local_units_of (g ∷ groups) i = elim (local_units_of groups i) [
  | some members ↦ some members
  | none ↦
      if g.complete && not g.spans_pages && is_in i (ids_of_refs g.members)
      then some (ids_of_refs g.members)
      else none
]

unfoldable pub page_local_units : List LineManifest → String → Option (List String)
unfolding local_units_of derive_hyphen_groups
page_local_units lines i = local_units_of (derive_hyphen_groups lines) i

-- `_units_visible_on_page`: the members that the page holds, where they are two or more. A group
-- names each of its lines once.
unfoldable pub kept_ids : List String → List LineRef → List String
unfolding is_in
kept_ids known [] = []
kept_ids known (r ∷ refs) =
    let rest = kept_ids known refs in if is_in r.line_id known then r.line_id ∷ rest else rest

unfoldable pub visible_units_of : List String → List HyphenGroup → String → Option (List String)
unfolding kept_ids is_in
visible_units_of known [] i = none
visible_units_of known (g ∷ groups) i = elim (visible_units_of known groups i) [
  | some members ↦ some members
  | none ↦
      let members = kept_ids known g.members in
      if not (ltb (length members) 2) && is_in i members then some members else none
]

unfoldable pub units_visible_on_page : List LineManifest → String → Option (List String)
unfolding visible_units_of ids_of_chunk derive_hyphen_groups
units_visible_on_page lines i = visible_units_of (ids_of_chunk lines) (derive_hyphen_groups lines) i

-- `units_containing` of core/units.py
unfoldable pub wanted_with : List HyphenGroup → List LineRef → List LineRef
unfolding group_by_line
wanted_with groups [] = []
wanted_with groups (r ∷ seeds) =
    let rest = wanted_with groups seeds in
    elim (group_by_line groups r) [ none ↦ r ∷ rest | some g ↦ r ∷ (g.members ++ rest) ]

unfoldable pub refs_of_lines : List LineManifest → List LineRef
unfolding line_ref
refs_of_lines [] = []
refs_of_lines (lm ∷ lines) = line_ref lm ∷ refs_of_lines lines

-- `by_ref.setdefault(line_ref(lm), lm)` for the lines of the pool.
unfoldable pub add_missing : List LineManifest → Pool → Pool
unfolding at_ref set_ref line_ref
add_missing [] by_ref = by_ref
add_missing (lm ∷ lines) by_ref = add_missing lines (elim (at_ref (line_ref lm) by_ref) [
  | some there ↦ by_ref
  | none ↦ set_ref (line_ref lm) lm by_ref
])

unfoldable pub keep_wanted : List LineRef → Pool → List LineManifest
unfolding ref_in
keep_wanted wanted [] = []
keep_wanted wanted ((r, lm) ∷ by_ref) =
    let rest = keep_wanted wanted by_ref in if ref_in r wanted then lm ∷ rest else rest

unfoldable pub units_containing : List LineManifest → List LineManifest → List LineManifest
unfolding derive_hyphen_groups wanted_with refs_of_lines index_lines add_missing keep_wanted
units_containing seeds pool =
    keep_wanted (wanted_with (derive_hyphen_groups pool) (refs_of_lines seeds))
      (add_missing pool (index_lines [] seeds))

-- `_unit_pool`: the page's lines, and the partners on other pages.
unfoldable pub unit_pool : List LineManifest → List LineManifest → List LineManifest
unit_pool page_lines partners = page_lines ++ partners

-- `_build_hyphen_pairs`, on the identifiers of a chunk: both ways.
unfoldable pub pair_both_ways :
    String → Option String → List (String × String) → List (String × String)
unfolding assign truthy
pair_both_ways i partner pairs = elim (truthy partner) [
  | none ↦ pairs
  | some j ↦ assign j i (assign i j pairs)
]

unfoldable pub add_pair :
    HyphenRole → LineManifest → List (String × String) → List (String × String)
unfolding pair_both_ways
add_pair HyphenRole.part1 lm pairs = pair_both_ways lm.line_id lm.hyphen_pair_line_id pairs
add_pair HyphenRole.both lm pairs = pair_both_ways lm.line_id lm.hyphen_forward_pair_id pairs
add_pair HyphenRole.part2 lm pairs = pairs
add_pair HyphenRole.no_role lm pairs = pairs

unfoldable pub hyphen_pairs_from :
    List (String × String) → List LineManifest → List (String × String)
unfolding add_pair
hyphen_pairs_from pairs [] = pairs
hyphen_pairs_from pairs (lm ∷ lines) = hyphen_pairs_from (add_pair lm.hyphen_role lm pairs) lines

unfoldable pub build_hyphen_pairs : List LineManifest → List (String × String)
unfolding hyphen_pairs_from
build_hyphen_pairs lines = hyphen_pairs_from [] lines

-- `_subpage_for_lines`: the page of some of its lines, with the blocks that own them.
unfoldable pub kept_in : List String → List String → List String
unfolding is_in
kept_in kept [] = []
kept_in kept (i ∷ ids) = let rest = kept_in kept ids in if is_in i kept then i ∷ rest else rest

unfoldable pub any_kept : List String → List String → Bool
unfolding is_in
any_kept kept [] = false
any_kept kept (i ∷ ids) = is_in i kept || any_kept kept ids

unfoldable pub sub_blocks : List String → List BlockManifest → List BlockManifest
unfolding kept_in any_kept
sub_blocks kept [] = []
sub_blocks kept (b ∷ blocks) =
    let rest = sub_blocks kept blocks in
    if any_kept kept b.line_ids
    then record b { line_ids = kept_in kept b.line_ids } ∷ rest
    else rest

unfoldable pub subpage_for_lines : PageManifest → List LineManifest → PageManifest
unfolding ids_of_chunk sub_blocks
subpage_for_lines page lines = record page {
  blocks = sub_blocks (ids_of_chunk lines) page.blocks;
  lines = lines;
}
