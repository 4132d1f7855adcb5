-- ===== src/Planner/Page.antt =====
-- `_try_page` and `plan_page` of core/planner.py: the tiers, from the page down.
pub mod Bounded
use corrigenda.Base.{Bool, true, false, Option, none, some, List, [], ◌∷◌, String, if◌then◌else◌}
use corrigenda.Manifest.{LineManifest, PageManifest}
use corrigenda.Policies.{ChunkPlannerConfig}
use corrigenda.Planner.{ChunkGranularity, ChunkRequest, ChunkPlan, ids_of_lines}
use corrigenda.Planner.Block.{fits_request, try_block}
use corrigenda.Planner.Line.{plan_line}
use corrigenda.Planner.Window.Targets.{try_window}

unfoldable pub page_chunk : PageManifest → ChunkRequest
page_chunk page = record {
  page_id = page.page_id;
  block_id = none;
  granularity = ChunkGranularity.page;
  line_ids = ids_of_lines page.lines;
  target_line_ids = none;
}

unfoldable pub whole_page : PageManifest → ChunkPlan
whole_page page = record {
  page_id = page.page_id;
  chunks = page_chunk page ∷ [];
  granularity = ChunkGranularity.page;
  hyphen_splits = [];
}

unfoldable pub try_page : PageManifest → ChunkPlannerConfig → Option ChunkPlan
try_page page config = if fits_request config page.lines then some (whole_page page) else none

-- `if result: return result`, else what follows.
unfoldable pub first_plan : Option ChunkPlan → ChunkPlan → ChunkPlan
first_plan none next = next
first_plan (some plan) next = plan

unfoldable pub plan_down : PageManifest → ChunkPlannerConfig → ChunkPlan
plan_down page config =
    first_plan (try_page page config) (first_plan (try_block page config) (try_window page config))

-- The plan, and the page's lines as planning leaves them: only the line tier changes any. `none` is
-- an exception.
unfoldable pub plan_page :
    PageManifest
    → ChunkPlannerConfig
    → Option ChunkGranularity
    → Option (ChunkPlan × List LineManifest)
plan_page page config none = some (plan_down page config, page.lines)
plan_page page config (some ChunkGranularity.line) = plan_line page config
plan_page page config (some ChunkGranularity.window) = some (try_window page config, page.lines)
plan_page page config (some ChunkGranularity.block) =
    some (first_plan (try_block page config) (try_window page config), page.lines)
plan_page page config (some ChunkGranularity.page) = some (plan_down page config, page.lines)
