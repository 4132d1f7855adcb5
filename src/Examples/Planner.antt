-- ===== src/Examples/Planner.antt =====
-- Examples for Planner (core/planner.py).
use corrigenda.Base.{
  Option, none, pos, ℕ, ◌<◌, true, ◌≡◌, refl, some, List, [], ◌∷◌, String, codes, length, All,
  is_in, lookup, assign, select,
}
use corrigenda.Manifest.{
  LineManifest, PageManifest, BlockManifest, truthy, or_else, line_ref, wants_forward,
}
use corrigenda.Policies.{ChunkPlannerConfig}
use corrigenda.Planner.{
  target_ids_of, ChunkPlan, chunk_ids, total_chars, ids_of_lines, index_by_id, chunk_targets,
}
use corrigenda.Planner.Block.{
  try_block, fits_request, line_of, block_lines, lines_by_block, self_blocks, parent_block,
  find_block, root_block, unite_blocks, blocks_of_members, unite_linked, unite_groups, seen_roots,
  add_block, group_blocks, lines_of_blocks, block_label, block_chunk, blocks_at, block_chunks,
  plan_of_blocks, block_plan,
}
use corrigenda.Planner.Page.{plan_page}
use corrigenda.Planner.Page.Bounded.{IsPlan, plan_page-IsPlan}
use corrigenda.Planner.Line.{
  plan_line, put, forward_at, sever_at, add_chunk, next_in_chain, walk, sever, plan_chunks,
  line_chunks, finished_plan,
}
use corrigenda.Planner.Line.Partition.{IsLinePlan, plan_line-IsLinePlan}
use corrigenda.Planner.Window.{
  page_windows, chars_at, core_end, reach_of, unit_reach, stretch, core_of, extension_limit,
  window_end, next_start, window_bounds, ids_of_windows,
}
use corrigenda.Planner.Window.Cover.{covered, IsWindow, page_windows_cover}
use corrigenda.Planner.Window.Targets.{
  is_held, assign_window_targets, try_window, windows_of, nat_in, last_of, max_from,
  in_windows_of_all, common_windows, last_window, pin, pin_common, pin_component, pin_all,
  is_target_at, targets_of, held_members, held_components, window_chunks,
}
use corrigenda.Planner.Window.Targets.Owned.{IsOwned, assign_window_targets-IsOwned}
use corrigenda.Planner.Window.Plan.{try_window-IsOwned}
use corrigenda.Pairing.{
  ref_from, pair_ref, forward_ref, forward_by_role, forward_partner_ref, forward_partner_id,
}
use corrigenda.Units.{cut_tail, cut_head, continues_onto, severance, split_forward_link}
use corrigenda.Units.Groups.{
  ref_in, at_ref, set_ref, index_lines, self_parents, parent_of, find_root, root_of, unite, follow,
  follow_all, add_member, components_of, order_of, insert_by, sort_by, is_set, links_explicit,
  explicit_at, some_other_page, spans_pages_of, any_in, group_of_members, groups_of, first_order,
  derive_hyphen_groups,
}
use corrigenda.Examples.Samples.{fresh, opening, middle, closing}

-- Five lines, three of them a broken word.
abbrev page_lines : List LineManifest
page_lines =
    fresh "a" (codes "one")
    ∷ opening "b" "c" (codes "inter-")
    ∷ middle "c" "b" "d" (codes "natio-")
    ∷ closing "d" "c" (codes "nal")
    ∷ fresh "e" (codes "two")
    ∷ []

abbrev page : PageManifest
page = record {
  page_id = "p";
  source_file = "f";
  page_index = 0;
  page_width = 0;
  page_height = 0;
  blocks =
      record {
        block_id = "b";
        page_id = "p";
        block_order = 0;
        coords = record { hpos = pos 0; vpos = pos 0; width = pos 0; height = pos 0 };
        line_ids = "a" ∷ "b" ∷ "c" ∷ "d" ∷ "e" ∷ [];
      }
      ∷ [];
  lines = page_lines;
}

-- Requests of two lines, so that the chain is cut; windows of two with one shared.
abbrev narrow : ChunkPlannerConfig
narrow = record {
  max_input_chars_per_request = 12;
  max_lines_per_request = 2;
  line_window_size = 2;
  line_window_overlap = 1;
}

plan_line-IsLinePlan_example :
    (r : ChunkPlan × List LineManifest) × (plan_line page narrow ≡ some r)
    × IsLinePlan page narrow r
plan_line-IsLinePlan_example = plan_line-IsLinePlan page narrow

page_windows_cover_example :
    ((k : ℕ) → k < length page.lines → covered k (page_windows page narrow) ≡ true)
    × All (IsWindow narrow page.lines) (page_windows page narrow)
page_windows_cover_example = page_windows_cover page narrow

abbrev two_windows : List (List String)
two_windows = ("a" ∷ "b" ∷ []) ∷ ("b" ∷ "c" ∷ []) ∷ []

b_held : is_held two_windows "b" ≡ true
unfolding is_held is_in
b_held = refl

assign_window_targets-IsOwned_example :
    IsOwned two_windows (assign_window_targets two_windows page_lines) "b"
assign_window_targets-IsOwned_example =
    assign_window_targets-IsOwned two_windows page_lines "b" b_held

try_window-IsOwned_example :
    IsOwned
      (chunk_ids (try_window page narrow).chunks)
      (target_ids_of (try_window page narrow).chunks)
      "c"
try_window-IsOwned_example =
    try_window-IsOwned page narrow 2 (middle "c" "b" "d" (codes "natio-")) refl

plan_page-IsPlan_example :
    (r : ChunkPlan × List LineManifest) × (plan_page page narrow none ≡ some r)
    × IsPlan page narrow r
plan_page-IsPlan_example = plan_page-IsPlan page narrow none

-- A page that does not fit in one request, in two blocks that a broken word joins: one chunk.
abbrev block_of : String → List String → BlockManifest
block_of i ids = record {
  block_id = i;
  page_id = "p";
  block_order = 0;
  coords = record { hpos = pos 0; vpos = pos 0; width = pos 0; height = pos 0 };
  line_ids = ids;
}

abbrev joined_page : PageManifest
joined_page = record page {
  lines =
      record (opening "a" "b" (codes "inter-")) { block_id = "x" }
      ∷ record (closing "b" "a" (codes "nal")) { block_id = "y" }
      ∷ record (fresh "c" (codes "two")) { block_id = "z" }
      ∷ [];
  blocks = block_of "x" ("a" ∷ []) ∷ block_of "y" ("b" ∷ []) ∷ block_of "z" ("c" ∷ []) ∷ [];
}

abbrev chunks_of : Option ChunkPlan → List (List String)
chunks_of none = []
chunks_of (some plan) = chunk_ids plan.chunks

unfoldable blocks_planned : PageManifest → List (List String)
unfolding ref_in at_ref set_ref index_lines self_parents parent_of find_root root_of unite follow
    follow_all add_member components_of order_of insert_by sort_by is_set links_explicit explicit_at
    some_other_page spans_pages_of any_in group_of_members groups_of first_order
    derive_hyphen_groups fits_request line_of block_lines lines_by_block self_blocks parent_block
    find_block root_block unite_blocks blocks_of_members unite_linked unite_groups seen_roots
    add_block group_blocks lines_of_blocks block_label block_chunk blocks_at block_chunks
    plan_of_blocks block_plan try_block truthy or_else line_ref wants_forward ref_from pair_ref
    forward_ref forward_by_role forward_partner_ref forward_partner_id total_chars ids_of_lines
    index_by_id is_in lookup assign
blocks_planned p = chunks_of (try_block p narrow)

try_block_test : blocks_planned joined_page ≡ ("a" ∷ "b" ∷ []) ∷ ("c" ∷ []) ∷ []
unfolding blocks_planned
try_block_test = refl

-- The chain is cut after two of its three lines, and the windows pin its halves together.
abbrev line_chunks_of : Option (ChunkPlan × List LineManifest) → List (List String)
line_chunks_of none = []
line_chunks_of (some (plan, lines)) = chunk_ids plan.chunks

unfoldable lines_planned : PageManifest → List (List String)
unfolding put forward_at sever_at add_chunk next_in_chain walk sever plan_chunks line_chunks
    finished_plan plan_line cut_tail cut_head continues_onto severance split_forward_link truthy
    or_else line_ref wants_forward ref_from pair_ref forward_ref forward_by_role forward_partner_ref
    forward_partner_id total_chars ids_of_lines index_by_id is_in lookup assign
lines_planned p = line_chunks_of (plan_line p narrow)

plan_line_test : lines_planned page ≡ ("a" ∷ []) ∷ ("b" ∷ "c" ∷ []) ∷ ("d" ∷ []) ∷ ("e" ∷ []) ∷ []
unfolding lines_planned
plan_line_test = refl

unfoldable windows_planned : PageManifest → List (List String)
unfolding chars_at core_end reach_of unit_reach stretch core_of extension_limit window_end
    next_start window_bounds ids_of_windows page_windows windows_of nat_in last_of max_from
    in_windows_of_all common_windows last_window pin pin_common pin_component pin_all is_target_at
    targets_of is_held held_members held_components assign_window_targets window_chunks try_window
    ref_in at_ref set_ref index_lines self_parents parent_of find_root root_of unite follow
    follow_all add_member components_of order_of insert_by sort_by is_set links_explicit explicit_at
    some_other_page spans_pages_of any_in group_of_members groups_of first_order
    derive_hyphen_groups truthy or_else line_ref wants_forward ref_from pair_ref forward_ref
    forward_by_role forward_partner_ref forward_partner_id total_chars ids_of_lines index_by_id
    is_in lookup assign select chunk_targets
windows_planned p = target_ids_of (try_window p narrow).chunks

try_window_test : windows_planned joined_page ≡ ("a" ∷ "b" ∷ []) ∷ [] ∷ ("c" ∷ []) ∷ []
unfolding windows_planned
try_window_test = refl
