-- ===== src/Planner/Page/Bounded.antt =====
-- The plans of `plan_page` of core/planner.py, and the size of their chunks.
use corrigenda.Base.{
  ℕ, ◌+◌, ◌≤◌, max, true, ◌≡◌, refl, ap, inl, inr, Option, none, some, List, [], ◌∷◌, String,
  length, All, arith, Bool-cases, Option-cases, select,
}
use mathlib.Core.Path.{subst}
use corrigenda.Manifest.{LineManifest, PageManifest}
use corrigenda.Policies.{ChunkPlannerConfig}
use corrigenda.Units.Groups.{derive_hyphen_groups}
use corrigenda.Planner.{
  ChunkGranularity, ChunkRequest, ChunkPlan, chunk_ids, total_chars, ids_of_lines,
}
use corrigenda.Planner.Segments.{length-ids_of_lines, ids_of_lines-segment, length-segment}
use corrigenda.Planner.Line.Partition.{plan_line-IsLinePlan}
use corrigenda.Planner.Block.{
  fits_request, lines_of_blocks, block_chunk, block_chunks, blocks_at, plan_of_blocks, block_plan,
  try_block, BlockGroups,
}
use corrigenda.Planner.Window.{ids_of_windows, page_windows}
use corrigenda.Planner.Window.Cover.{IsWindow, page_windows_cover}
use corrigenda.Planner.Window.Targets.{
  pin_all, last_window, is_held, held_components, assign_window_targets, try_window,
}
use corrigenda.Planner.Window.Plan.{chunk_ids-window_chunks}
use corrigenda.Planner.Block.OnPage.{
  IsOnPage, OnPage, IsOnPage-all, OnPage-lines_by_block, IsOnPage-lines_of_blocks,
}
use corrigenda.Planner.Page.{page_chunk, whole_page, try_page, first_plan, plan_down, plan_page}

module _ (page : PageManifest) (config : ChunkPlannerConfig) where
  -- A chunk that fits in a request: lines of the page, within both limits.
  pub record IsRequest (ids : List String) : Type 0 where
    pub lines : List LineManifest
    pub named : ids ≡ ids_of_lines lines
    pub on_page : All (IsOnPage page) lines
    pub few_chars : total_chars lines ≤ config.max_input_chars_per_request
    pub few_lines : length lines ≤ config.max_lines_per_request

  -- What bounds the chunks of a tier.
  abbrev pub IsBounded : ChunkGranularity → List (List String) → Type 0
  IsBounded ChunkGranularity.page chunks = All IsRequest chunks
  IsBounded ChunkGranularity.block chunks = All IsRequest chunks
  IsBounded ChunkGranularity.window chunks =
      All
        (λ ids. length ids ≤ max config.max_lines_per_request (max 1 config.line_window_size + 10))
        chunks
  IsBounded ChunkGranularity.line chunks =
      All (λ ids. length ids ≤ max 1 config.max_lines_per_request) chunks

  IsRequest-fits :
      (lines : List LineManifest)
      → All (IsOnPage page) lines
      → fits_request config lines ≡ true
      → IsRequest (ids_of_lines lines)
  unfolding fits_request
  IsRequest-fits lines h f = record {
    lines = lines;
    named = refl;
    on_page = h;
    few_chars = ground arith;
    few_lines = ground arith;
  }

  block_chunks-IsRequest :
      (d : List (String × List LineManifest)) (groups : BlockGroups) (roots : List String)
      (chunks : List ChunkRequest)
      → All (OnPage page) d
      → block_chunks config page.page_id d groups roots ≡ some chunks
      → All IsRequest (chunk_ids chunks)
  unfolding block_chunks block_chunk
  block_chunks-IsRequest d groups [] chunks h e =
      let same : chunks ≡ [] = ground arith in rw same tt
  block_chunks-IsRequest d groups (root ∷ roots) chunks h e =
      elim (Option-cases (block_chunks config page.page_id d groups roots)) [
        | inl n ↦ absurd (ground (arith, n))
        | inr (rest, n) ↦
            let lines = lines_of_blocks d (blocks_at root groups) in
            elim (Bool-cases (fits_request config lines)) [
              | inr f ↦ absurd (ground (arith, n, f))
              | inl f ↦
                  let same : block_chunk page.page_id (blocks_at root groups) lines ∷ rest
                      ≡ chunks =
                    ground (arith, n, f) in
                  rw (← same) (
                    IsRequest-fits lines (IsOnPage-lines_of_blocks page d (blocks_at root groups) h)
                        f,
                    block_chunks-IsRequest d groups roots rest h n,
                  )
            ]
      ]

  block_plan-IsBounded :
      (o : Option (List ChunkRequest)) (plan : ChunkPlan)
      → ((chunks : List ChunkRequest) → o ≡ some chunks → All IsRequest (chunk_ids chunks))
      → block_plan page.page_id o ≡ some plan
      → IsBounded plan.granularity (chunk_ids plan.chunks)
  unfolding block_plan
  block_plan-IsBounded none plan h e = cc
  block_plan-IsBounded (some []) plan h e = cc
  block_plan-IsBounded (some (c ∷ cs)) plan h e =
      let same : plan_of_blocks page.page_id (c ∷ cs) ≡ plan = ground arith in
      subst (λ p. IsBounded p.granularity (chunk_ids p.chunks)) same
        (unfold plan_of_blocks in h (c ∷ cs) refl)

  try_block-IsBounded :
      (plan : ChunkPlan)
      → try_block page config ≡ some plan
      → IsBounded plan.granularity (chunk_ids plan.chunks)
  unfolding try_block
  try_block-IsBounded plan e =
      block_plan-IsBounded _ plan
        (λ chunks n.
          block_chunks-IsRequest _ _ _ chunks (OnPage-lines_by_block page page.blocks [] tt) n)
        e

  try_page-IsBounded :
      (plan : ChunkPlan)
      → try_page page config ≡ some plan
      → IsBounded plan.granularity (chunk_ids plan.chunks)
  unfolding try_page
  try_page-IsBounded plan e = elim (Bool-cases (fits_request config page.lines)) [
    | inr f ↦ absurd (ground (arith, f))
    | inl f ↦
        let same : whole_page page ≡ plan = ground (arith, f) in
        subst (λ p. IsBounded p.granularity (chunk_ids p.chunks)) same
          (unfold whole_page page_chunk in
            (IsRequest-fits page.lines (IsOnPage-all page page.lines (λ lm k h. (k, h))) f, tt))
  ]

  window_lengths :
      (bounds : List (ℕ × ℕ))
      → All (IsWindow config page.lines) bounds
      → IsBounded ChunkGranularity.window (ids_of_windows page.lines bounds)
  unfolding ids_of_windows
  window_lengths [] h = tt
  window_lengths ((a, b) ∷ rest) ((p, q, r), h) = (
    omega (
      arith,
      ap length (ids_of_lines-segment a b page.lines),
      length-segment a b (ids_of_lines page.lines) (omega (arith, length-ids_of_lines page.lines)),
    ),
    window_lengths rest h,
  )

  try_window-IsBounded :
      IsBounded (try_window page config).granularity (chunk_ids (try_window page config).chunks)
  unfolding try_window assign_window_targets
  try_window-IsBounded =
      let ws = ids_of_windows page.lines (page_windows page config) in
      let groups = derive_hyphen_groups (select (λ m. is_held ws m.line_id) page.lines) in
      let target_win = pin_all ws (held_components ws groups) (last_window ws) in
      rw (chunk_ids-window_chunks page.page_id target_win 0 ws)
        (window_lengths (page_windows page config) (page_windows_cover page config).1)

  first_plan-IsBounded :
      (o : Option ChunkPlan) (next : ChunkPlan)
      → ((plan : ChunkPlan) → o ≡ some plan → IsBounded plan.granularity (chunk_ids plan.chunks))
      → IsBounded next.granularity (chunk_ids next.chunks)
      → IsBounded (first_plan o next).granularity (chunk_ids (first_plan o next).chunks)
  unfolding first_plan
  first_plan-IsBounded none next h n = n
  first_plan-IsBounded (some plan) next h n = h plan refl

  plan_down-IsBounded :
      IsBounded (plan_down page config).granularity (chunk_ids (plan_down page config).chunks)
  unfolding plan_down
  plan_down-IsBounded =
      first_plan-IsBounded (try_page page config) _ try_page-IsBounded
        (first_plan-IsBounded (try_block page config) _ try_block-IsBounded try_window-IsBounded)

  -- A plan of a page, with the page's lines after it.
  pub record IsPlan (r : ChunkPlan × List LineManifest) : Type 0 where
    pub bounded : IsBounded r.0.granularity (chunk_ids r.0.chunks)
    pub kept : ids_of_lines r.1 ≡ ids_of_lines page.lines

  -- Planning a page gives a plan, whichever tier is asked for and if none is. The chunks of a plan
  -- at the page and the block tier are lists of the page's lines within both limits of a request;
  -- those of a window plan have no more lines than a request may have, or ten more than the window;
  -- those of a line plan no more than a request may have, or one. No line of the page changes its
  -- identifier or place.
  pub plan_page-IsPlan :
      (force : Option ChunkGranularity)
      → (r : ChunkPlan × List LineManifest) × (plan_page page config force ≡ some r) × IsPlan r
  unfolding plan_page
  plan_page-IsPlan none = (
    (plan_down page config, page.lines),
    refl,
    record { bounded = plan_down-IsBounded; kept = refl },
  )
  plan_page-IsPlan (some ChunkGranularity.page) = (
    (plan_down page config, page.lines),
    refl,
    record { bounded = plan_down-IsBounded; kept = refl },
  )
  plan_page-IsPlan (some ChunkGranularity.block) = (
    (first_plan (try_block page config) (try_window page config), page.lines),
    refl,
    record {
      bounded =
          first_plan-IsBounded (try_block page config) _ try_block-IsBounded try_window-IsBounded;
      kept = refl;
    },
  )
  plan_page-IsPlan (some ChunkGranularity.window) = (
    (try_window page config, page.lines),
    refl,
    record { bounded = try_window-IsBounded; kept = refl },
  )
  plan_page-IsPlan (some ChunkGranularity.line) =
      let (r, e, p) = plan_line-IsLinePlan page config in
      (r, e, record { bounded = rw p.is_line_tier p.bounded; kept = p.kept })
