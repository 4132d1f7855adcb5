-- ===== src/Planner/Block.antt =====
-- `_try_block` of core/planner.py: blocks, and the blocks that hyphen units join, as chunks. `none`
-- is `None`, where a chunk would be too large or there is no block.
pub mod OnPage
use corrigenda.Base.{
  ℕ, zero, suc, Bool, ◌&&◌, Option, none, some, List, [], ◌∷◌, ◌++◌, String, str_eq, is_in, lookup,
  assign, length, get_elem?, leb, if◌then◌else◌,
}
use corrigenda.Manifest.{LineRef, LineManifest, BlockManifest, PageManifest}
use corrigenda.Policies.{ChunkPlannerConfig}
use corrigenda.Units.Groups.{HyphenGroup, derive_hyphen_groups}
use corrigenda.Planner.{
  ChunkGranularity, ChunkRequest, ChunkPlan, total_chars, ids_of_lines, index_by_id,
}

-- Whether lines fit in one request, by their characters and their number.
unfoldable pub fits_request : ChunkPlannerConfig → List LineManifest → Bool
fits_request config lines =
    leb (total_chars lines) config.max_input_chars_per_request
    && leb (length lines) config.max_lines_per_request

-- `line_by_id`
unfoldable pub line_of : List LineManifest → String → Option LineManifest
line_of lines i = elim (index_by_id lines i) [ none ↦ none | some k ↦ get_elem? lines k ]

unfoldable pub block_lines : List LineManifest → List String → List LineManifest
block_lines lines [] = []
block_lines lines (i ∷ is) = elim (line_of lines i) [
  | none ↦ block_lines lines is
  | some lm ↦ lm ∷ block_lines lines is
]

unfoldable pub lines_by_block :
    List LineManifest
    → List BlockManifest
    → List (String × List LineManifest)
    → List (String × List LineManifest)
lines_by_block lines [] acc = acc
lines_by_block lines (b ∷ bs) acc =
    lines_by_block lines bs (assign b.block_id (block_lines lines b.line_ids) acc)

abbrev pub BlockParents : Type 0
BlockParents = List (String × String)

unfoldable pub self_blocks : List BlockManifest → BlockParents → BlockParents
self_blocks [] acc = acc
self_blocks (b ∷ bs) acc = self_blocks bs (assign b.block_id b.block_id acc)

-- `parent[x]`; every block that is looked up is a key.
unfoldable pub parent_block : BlockParents → String → String
parent_block parent x = elim (lookup x parent) [ none ↦ x | some p ↦ p ]

-- `find`, which halves the path: the parents after it, and the root.
unfoldable pub find_block : ℕ → BlockParents → String → BlockParents × String
find_block zero parent x = (parent, x)
find_block (suc fuel) parent x =
    let p = parent_block parent x in
    let up = parent_block parent p in
    let on = find_block fuel (assign x up parent) up in if str_eq p x then (parent, x) else on

unfoldable pub root_block : BlockParents → String → BlockParents × String
root_block parent x = find_block (length parent) parent x

unfoldable pub unite_blocks : String → String → BlockParents → BlockParents
unite_blocks a b parent =
    let (after_a, root_a) = root_block parent a in
    let (after_b, root_b) = root_block after_a b in
    if str_eq root_a root_b then after_b else assign root_b root_a after_b

-- `linked`: the blocks of a unit's lines, those that the page has.
unfoldable pub blocks_of_members : List LineManifest → BlockParents → List LineRef → List String
blocks_of_members lines parent [] = []
blocks_of_members lines parent (r ∷ rs) =
    let rest = blocks_of_members lines parent rs in
    elim (line_of lines r.line_id) [
      | none ↦ rest
      | some lm ↦ elim (lookup lm.block_id parent) [ none ↦ rest | some p ↦ lm.block_id ∷ rest ]
    ]

unfoldable pub unite_linked : List String → BlockParents → BlockParents
unite_linked [] parent = parent
unite_linked (a ∷ []) parent = parent
unite_linked (a ∷ b ∷ rest) parent = unite_linked (b ∷ rest) (unite_blocks a b parent)

unfoldable pub unite_groups : List LineManifest → List HyphenGroup → BlockParents → BlockParents
unite_groups lines [] parent = parent
unite_groups lines (g ∷ gs) parent =
    unite_groups lines gs (unite_linked (blocks_of_members lines parent g.members) parent)

-- The roots in the order in which the blocks come to them.
unfoldable pub seen_roots :
    List BlockManifest → BlockParents → List String → BlockParents × List String
seen_roots [] parent roots = (parent, roots)
seen_roots (b ∷ bs) parent roots =
    let (after, root) = root_block parent b.block_id in
    seen_roots bs after (if is_in root roots then roots else roots ++ root ∷ [])

abbrev pub BlockGroups : Type 0
BlockGroups = List (String × List String)

-- `groups.setdefault(root, []).append(bid)`
unfoldable pub add_block : String → String → BlockGroups → BlockGroups
add_block root i [] = (root, i ∷ []) ∷ []
add_block root i ((r, is) ∷ rest) =
    if str_eq r root then (r, is ++ i ∷ []) ∷ rest else (r, is) ∷ add_block root i rest

unfoldable pub group_blocks : List BlockManifest → BlockParents → BlockGroups → BlockGroups
group_blocks [] parent acc = acc
group_blocks (b ∷ bs) parent acc =
    let (after, root) = root_block parent b.block_id in
    group_blocks bs after (add_block root b.block_id acc)

unfoldable pub lines_of_blocks : List (String × List LineManifest) → List String → List LineManifest
lines_of_blocks by_block [] = []
lines_of_blocks by_block (i ∷ is) = elim (lookup i by_block) [
  | none ↦ lines_of_blocks by_block is
  | some lines ↦ lines ++ lines_of_blocks by_block is
]

unfoldable pub block_label : List String → Option String
block_label [] = none
block_label (i ∷ []) = some i
block_label (i ∷ j ∷ is) = none

unfoldable pub block_chunk : String → List String → List LineManifest → ChunkRequest
block_chunk page_id blocks lines = record {
  page_id = page_id;
  block_id = block_label blocks;
  granularity = ChunkGranularity.block;
  line_ids = ids_of_lines lines;
  target_line_ids = none;
}

unfoldable pub blocks_at : String → BlockGroups → List String
blocks_at root groups = elim (lookup root groups) [ none ↦ [] | some is ↦ is ]

module _ (config : ChunkPlannerConfig) (page_id : String) where
  -- One chunk for each root, in order; one that does not fit gives up.
  unfoldable pub block_chunks :
      List (String × List LineManifest) → BlockGroups → List String → Option (List ChunkRequest)
  block_chunks by_block groups [] = some []
  block_chunks by_block groups (root ∷ roots) = elim (block_chunks by_block groups roots) [
    | none ↦ none
    | some chunks ↦
        let lines = lines_of_blocks by_block (blocks_at root groups) in
        if fits_request config lines
        then some (block_chunk page_id (blocks_at root groups) lines ∷ chunks)
        else none
  ]

unfoldable pub plan_of_blocks : String → List ChunkRequest → ChunkPlan
plan_of_blocks page_id chunks = record {
  page_id = page_id;
  chunks = chunks;
  granularity = ChunkGranularity.block;
  hyphen_splits = [];
}

unfoldable pub block_plan : String → Option (List ChunkRequest) → Option ChunkPlan
block_plan page_id none = none
block_plan page_id (some []) = none
block_plan page_id (some (chunk ∷ chunks)) = some (plan_of_blocks page_id (chunk ∷ chunks))

unfoldable pub try_block : PageManifest → ChunkPlannerConfig → Option ChunkPlan
try_block page config =
    let united =
      unite_groups page.lines (derive_hyphen_groups page.lines) (self_blocks page.blocks []) in
    let (after, roots) = seen_roots page.blocks united [] in
    block_plan page.page_id (
      block_chunks config page.page_id (lines_by_block page.lines page.blocks [])
        (group_blocks page.blocks after []) roots)
