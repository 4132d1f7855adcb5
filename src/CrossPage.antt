-- ===== src/CrossPage.antt =====
-- The passes of core/pairing.py over a whole document: page identifiers that collide, the links from
-- the foot of a page to the head of the next, and the breaks that are left without a partner. The
-- source mutates the pages; the model returns them.
use Prim.Native.String.{◌++◌ as join_str}
use corrigenda.Base.{
  Bool, true, false, not, ◌&&◌, ◌||◌, Option, none, some, List, [], ◌∷◌, ◌++◌, String, str_eq,
  lookup, select, if◌then◌else◌,
}
use corrigenda.Manifest.{
  HyphenRole, LineManifest, LineRef, BlockManifest, PageManifest, line_ref, truthy, wants_forward,
  wants_backward,
}
use corrigenda.Units.Groups.{ref_in}
use corrigenda.Identity.{Counter, count_ids, ids_of_pages, duplicates}
use corrigenda.Pairing.{
  forward_partner_ref, backward_partner_ref, is_substantive, write_back, link_hyphen_pairs,
}

-- `unpaired_break_refs`: `known` are the references of the run's lines.
unfoldable pub is_missing : Option LineRef → List LineRef → Bool
unfolding ref_in
is_missing none known = true
is_missing (some r) known = not (ref_in r known)

unfoldable pub is_unpaired : List LineRef → LineManifest → Bool
unfolding is_missing wants_forward wants_backward forward_partner_ref backward_partner_ref
is_unpaired known lm =
    (wants_forward lm.hyphen_role && is_missing (forward_partner_ref lm) known)
    || (wants_backward lm.hyphen_role && is_missing (backward_partner_ref lm) known)

unfoldable pub refs_on : List LineManifest → List LineRef
unfolding line_ref
refs_on [] = []
refs_on (lm ∷ lines) = line_ref lm ∷ refs_on lines

unfoldable pub known_refs : List PageManifest → List LineRef
unfolding refs_on
known_refs [] = []
known_refs (p ∷ pages) = refs_on p.lines ++ known_refs pages

unfoldable pub unpaired_on : List LineRef → List PageManifest → List LineRef
unfolding refs_on is_unpaired select
unpaired_on known [] = []
unpaired_on known (p ∷ pages) =
    refs_on (select (is_unpaired known) p.lines) ++ unpaired_on known pages

unfoldable pub unpaired_break_refs : List PageManifest → List LineRef
unfolding unpaired_on known_refs
unpaired_break_refs pages = unpaired_on (known_refs pages) pages

-- `disambiguate_page_ids`, on the files in order, each with its pages.
abbrev pub Parsed : Type 0
Parsed = List (String × List PageManifest)

unfoldable pub parsed_ids : Parsed → List String
unfolding ids_of_pages
parsed_ids [] = []
parsed_ids ((file, pages) ∷ parsed) = ids_of_pages pages ++ parsed_ids parsed

unfoldable pub is_colliding : String → Counter → Bool
unfolding lookup
is_colliding i colliding = elim (lookup i colliding) [ none ↦ false | some n ↦ true ]

-- A partner's page that is the old one becomes the new one.
unfoldable pub moved_page : String → String → Option String → Option String
moved_page old new none = none
moved_page old new (some page) = if str_eq page old then some new else some page

unfoldable pub move_lines : String → String → List LineManifest → List LineManifest
unfolding moved_page
move_lines old new [] = []
move_lines old new (lm ∷ lines) =
    record lm {
      page_id = new;
      hyphen_pair_page_id = moved_page old new lm.hyphen_pair_page_id;
      hyphen_forward_pair_page_id = moved_page old new lm.hyphen_forward_pair_page_id;
    }
    ∷ move_lines old new lines

unfoldable pub move_blocks : String → List BlockManifest → List BlockManifest
move_blocks new [] = []
move_blocks new (b ∷ blocks) = record b { page_id = new } ∷ move_blocks new blocks

unfoldable pub move_page : String → PageManifest → PageManifest
unfolding move_lines move_blocks
move_page new p = record p {
  page_id = new;
  blocks = move_blocks new p.blocks;
  lines = move_lines p.page_id new p.lines;
}

unfoldable pub qualify_pages : Counter → String → List PageManifest → List PageManifest
unfolding is_colliding move_page
qualify_pages colliding file [] = []
qualify_pages colliding file (p ∷ pages) =
    (if is_colliding p.page_id colliding
      then move_page (join_str file (join_str "::" p.page_id)) p
      else p)
    ∷ qualify_pages colliding file pages

unfoldable pub qualify_files : Counter → Parsed → Parsed
unfolding qualify_pages
qualify_files colliding [] = []
qualify_files colliding ((file, pages) ∷ parsed) =
    (file, qualify_pages colliding file pages) ∷ qualify_files colliding parsed

unfoldable pub disambiguate_page_ids : Parsed → Parsed
unfolding qualify_files parsed_ids count_ids duplicates
disambiguate_page_ids parsed = qualify_files (duplicates (count_ids (parsed_ids parsed) [])) parsed

-- `link_cross_page_hyphens`, on the lines with a text of each page that has any.
unfoldable pub needs_forward_link : LineManifest → Bool
unfolding truthy
needs_forward_link lm = elim lm.hyphen_role [
  | HyphenRole.part1 ↦ elim (truthy lm.hyphen_pair_line_id) [ none ↦ true | some i ↦ false ]
  | HyphenRole.both ↦ elim (truthy lm.hyphen_forward_pair_id) [ none ↦ true | some i ↦ false ]
  | HyphenRole.part2 ↦ false
  | HyphenRole.no_role ↦ false
]

-- The last line of a page, and the page with another in its place.
unfoldable pub last_line : LineManifest → List LineManifest → LineManifest
last_line lm [] = lm
last_line lm (next ∷ lines) = last_line next lines

unfoldable pub put_last : LineManifest → LineManifest → List LineManifest → List LineManifest
put_last new lm [] = new ∷ []
put_last new lm (next ∷ lines) = lm ∷ put_last new next lines

-- What the link of two lines gives, put back on the two pages.
unfoldable pub put_seam :
    List LineManifest
    → LineManifest
    → List LineManifest
    → LineManifest
    → List LineManifest
    → List LineManifest × List LineManifest
unfolding put_last
put_seam (tail ∷ head ∷ linked) lm earlier first later = (put_last tail lm earlier, head ∷ later)
put_seam (tail ∷ []) lm earlier first later = (lm ∷ earlier, first ∷ later)
put_seam [] lm earlier first later = (lm ∷ earlier, first ∷ later)

module _ (can_pair : LineManifest → LineManifest → Bool) where
  unfoldable pub link_seam :
      List LineManifest → List LineManifest → List LineManifest × List LineManifest
  unfolding needs_forward_link last_line put_seam link_hyphen_pairs
  link_seam [] later = ([], later)
  link_seam (lm ∷ earlier) [] = (lm ∷ earlier, [])
  link_seam (lm ∷ earlier) (first ∷ later) =
      if needs_forward_link (last_line lm earlier)
      then put_seam (link_hyphen_pairs can_pair (last_line lm earlier ∷ first ∷ [])) lm earlier
          first later
      else (lm ∷ earlier, first ∷ later)

  unfoldable pub link_seams :
      List LineManifest → List (List LineManifest) → List (List LineManifest)
  unfolding link_seam
  link_seams earlier [] = earlier ∷ []
  link_seams earlier (later ∷ rest) =
      let seam = link_seam earlier later in seam.0 ∷ link_seams seam.1 rest

  unfoldable pub linked_pages : List (List LineManifest) → List (List LineManifest)
  unfolding link_seams
  linked_pages [] = []
  linked_pages (first ∷ rest) = link_seams first rest

-- The pages that carry text, and their linked lines put back on them.
unfoldable pub with_lines : List PageManifest → List (List LineManifest)
unfolding is_substantive select
with_lines [] = []
with_lines (p ∷ pages) =
    let rest = with_lines pages in
    elim (select is_substantive p.lines) [ [] ↦ rest | lm ∷ lines ↦ (lm ∷ lines) ∷ rest ]

unfoldable pub put_pages : List PageManifest → List (List LineManifest) → List PageManifest
unfolding is_substantive select write_back
put_pages [] linked = []
put_pages (p ∷ pages) [] = p ∷ pages
put_pages (p ∷ pages) (lines ∷ linked) =
    let here = record p { lines = write_back p.lines lines } ∷ put_pages pages linked in
    let skipped = p ∷ put_pages pages (lines ∷ linked) in
    elim (select is_substantive p.lines) [ [] ↦ skipped | lm ∷ rest ↦ here ]

unfoldable pub link_cross_page_hyphens :
    (LineManifest → LineManifest → Bool) → List PageManifest → List PageManifest
unfolding put_pages linked_pages with_lines
link_cross_page_hyphens can_pair pages = put_pages pages (linked_pages can_pair (with_lines pages))
