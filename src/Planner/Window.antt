-- ===== src/Planner/Window.antt =====
-- `_try_window` of core/planner.py: overlapping windows of lines within the request's budget, each
-- stretched to the end of the hyphen chains that it cuts. Python's integers here are never
-- negative, but for `core_end - overlap` and `window_size - overlap`: where one would be, the code
-- goes on from `start + 1`, and so does the model, whose subtraction stops at 0.
pub mod Cover
pub mod Targets
pub mod Plan
use corrigenda.Base.{
  ℕ, zero, suc, ◌+◌, ◌-◌, min, max, Bool, true, false, Option, none, some, List, [], ◌∷◌, String,
  length, get_elem?, take, drop, ltb, leb, if◌then◌else◌,
}
use corrigenda.Manifest.{LineManifest, PageManifest}
use corrigenda.Pairing.{forward_partner_id}
use corrigenda.Policies.{ChunkPlannerConfig}
use corrigenda.Planner.{ids_of_lines, segment, index_by_id}

-- `len(lines[k].ocr_text)`
unfoldable pub chars_at : List LineManifest → ℕ → ℕ
chars_at lines k = elim (get_elem? lines k) [ none ↦ 0 | some lm ↦ length lm.ocr_text ]

-- The first inner loop: lines taken up to `stop`, while the characters stay within the budget.
unfoldable pub core_end : ℕ → List LineManifest → ℕ → ℕ → ℕ → ℕ → ℕ
unfolding chars_at
core_end zero lines stop budget end chars = end
core_end (suc fuel) lines stop budget end chars =
    let more = core_end fuel lines stop budget (suc end) (chars + chars_at lines end) in
    if ltb end stop then if ltb budget (chars + chars_at lines end) then end else more else end

-- `_unit_reach`, on the lines from `start` to `end`, from the reach so far.
unfoldable pub reach_of : (String → Option ℕ) → ℕ → ℕ → List LineManifest → ℕ
reach_of at end reach [] = reach
reach_of at end reach (lm ∷ lines) = elim (forward_partner_id lm) [
  | none ↦ reach_of at end reach lines
  | some partner ↦ elim (at partner) [
    | none ↦ reach_of at end reach lines
    | some k ↦
        let inside = reach_of at end reach lines in
        let outside = reach_of at end (max reach (suc k)) lines in
        if ltb k end then inside else outside
  ]
]

unfoldable pub unit_reach : List LineManifest → (String → Option ℕ) → ℕ → ℕ → ℕ
unit_reach lines at start end = reach_of at end end (segment start end lines)

-- The second inner loop: on to the end of the chains that the window cuts, up to `max_end`.
unfoldable pub stretch : ℕ → List LineManifest → (String → Option ℕ) → ℕ → ℕ → ℕ → ℕ
stretch zero lines at start max_end end = end
stretch (suc fuel) lines at start max_end end =
    let reach = unit_reach lines at start end in
    let more = stretch fuel lines at start max_end (min reach max_end) in
    if ltb end max_end then if leb reach end then end else more else end

-- Where a window from `start` ends before it is stretched.
unfoldable pub core_of : ChunkPlannerConfig → List LineManifest → ℕ → ℕ
core_of config lines start =
    core_end (length lines) lines (min (start + config.line_window_size) (length lines))
      config.max_input_chars_per_request (suc start) (chars_at lines start)

-- The size that it may stretch to.
unfoldable pub extension_limit : ChunkPlannerConfig → ℕ → ℕ → ℕ
extension_limit config start end = max config.max_lines_per_request (end - start + 10)

unfoldable pub window_end : ChunkPlannerConfig → List LineManifest → (String → Option ℕ) → ℕ → ℕ
window_end config lines at start =
    let core = core_of config lines start in
    stretch (length lines) lines at start
      (min (length lines) (start + extension_limit config start core)) core

-- Where the next window starts, in front of this one.
unfoldable pub next_start : ChunkPlannerConfig → ℕ → ℕ → ℕ → ℕ
next_start config n start core =
    let budget_bound = ltb core (min (start + config.line_window_size) n) in
    let next =
      if budget_bound
      then max (suc start) (core - config.line_window_overlap)
      else (start + (config.line_window_size - config.line_window_overlap)) in
    if leb next start then suc start else next

-- The outer loop; each turn goes forward, so the page's length is fuel enough.
unfoldable pub window_bounds :
    ChunkPlannerConfig → List LineManifest → (String → Option ℕ) → ℕ → ℕ → List (ℕ × ℕ)
window_bounds config lines at zero start = []
window_bounds config lines at (suc fuel) start =
    let core = core_of config lines start in
    let rest = window_bounds config lines at fuel (next_start config (length lines) start core) in
    if ltb start (length lines) then (start, window_end config lines at start) ∷ rest else []

-- `window_line_ids`
unfoldable pub ids_of_windows : List LineManifest → List (ℕ × ℕ) → List (List String)
ids_of_windows lines [] = []
ids_of_windows lines ((a, b) ∷ rest) = ids_of_lines (segment a b lines) ∷ ids_of_windows lines rest

unfoldable pub page_windows : PageManifest → ChunkPlannerConfig → List (ℕ × ℕ)
page_windows page config =
    window_bounds config page.lines (index_by_id page.lines) (length page.lines) 0
