-- ===== src/Planner/Window/Cover.antt =====
-- The windows of `_try_window` of core/planner.py: which lines they hold, and how many.
use corrigenda.Base.{
  ℕ, zero, suc, ◌+◌, ◌-◌, ◌≤◌, ◌<◌, min, max, Bool, true, false, ◌&&◌, ◌||◌, ◌≡◌, inl, inr, Option,
  List, [], ◌∷◌, String, length, All, ltb, leb, arith, Bool-cases,
}
use corrigenda.Manifest.{LineManifest, PageManifest}
use corrigenda.Policies.{ChunkPlannerConfig}
use corrigenda.Planner.{index_by_id}
use corrigenda.Planner.Window.{
  chars_at, core_end, unit_reach, stretch, core_of, extension_limit, window_end, next_start,
  window_bounds, page_windows,
}

core_end-bounds :
    (fuel : ℕ) (lines : List LineManifest) (stop budget end chars : ℕ)
    → (end ≤ core_end fuel lines stop budget end chars)
      × (core_end fuel lines stop budget end chars ≤ max end stop)
unfolding core_end
core_end-bounds zero lines stop budget end chars = (omega arith, omega arith)
core_end-bounds (suc fuel) lines stop budget end chars =
    let (low, high) =
      core_end-bounds fuel lines stop budget (suc end) (chars + chars_at lines end) in
    (ground (arith, low), ground (arith, high))

stretch-bounds :
    (fuel : ℕ) (lines : List LineManifest) (at : String → Option ℕ) (start max_end end : ℕ)
    → (end ≤ stretch fuel lines at start max_end end)
      × (stretch fuel lines at start max_end end ≤ max end max_end)
unfolding stretch
stretch-bounds zero lines at start max_end end = (omega arith, omega arith)
stretch-bounds (suc fuel) lines at start max_end end =
    let (low, high) =
      stretch-bounds fuel lines at start max_end (min (unit_reach lines at start end) max_end) in
    (ground (arith, low), ground (arith, high))

-- Whether a line of the page is in one of the windows.
abbrev pub covered : ℕ → List (ℕ × ℕ) → Bool
covered k [] = false
covered k ((a, b) ∷ rest) = (leb a k && ltb k b) || covered k rest

module _ (config : ChunkPlannerConfig) (lines : List LineManifest) where
  -- A window within the page, not empty, and no longer than a request or the window size with ten
  -- lines more.
  abbrev pub IsWindow : ℕ × ℕ → Type 0
  IsWindow (a, b) =
      (a < b)
      × (b ≤ length lines)
      × (b - a ≤ max config.max_lines_per_request (max 1 config.line_window_size + 10))

module _ (config : ChunkPlannerConfig) (lines : List LineManifest) (at : String → Option ℕ) where
  IsWindow-window_end :
      (start : ℕ)
      → start < length lines
      → IsWindow config lines (start, window_end config lines at start)
  unfolding window_end core_of extension_limit
  IsWindow-window_end start h =
      let stop = min (start + config.line_window_size) (length lines) in
      let core = core_of config lines start in
      let limit = extension_limit config start core in
      let (c, d) =
        core_end-bounds (length lines) lines stop config.max_input_chars_per_request (suc start)
          (chars_at lines start) in
      let (e, f) =
        stretch-bounds (length lines) lines at start (min (length lines) (start + limit)) core in
      (omega (arith, c, e), omega (arith, d, f), omega (arith, c, d, e, f))

  core_of-bounds :
      (start : ℕ)
      → (start < core_of config lines start)
        × (core_of config lines start
            ≤ max (suc start) (min (start + config.line_window_size) (length lines)))
        × (core_of config lines start ≤ window_end config lines at start)
  unfolding window_end core_of
  core_of-bounds start =
      let stop = min (start + config.line_window_size) (length lines) in
      let core = core_of config lines start in
      let (c, d) =
        core_end-bounds (length lines) lines stop config.max_input_chars_per_request (suc start)
          (chars_at lines start) in
      let (e, f) =
        stretch-bounds (length lines) lines at start
          (min (length lines) (start + extension_limit config start core)) core in
      (omega (arith, c), d, e)

  -- The next window starts in front of this one's start, and no later than its end, if in the page.
  next_start-bounds :
      (start : ℕ)
      → start < length lines
      → (start < next_start config (length lines) start (core_of config lines start))
        × (min (next_start config (length lines) start (core_of config lines start)) (length lines)
            ≤ window_end config lines at start)
  unfolding next_start
  next_start-bounds start h =
      let (c, d, e) = core_of-bounds start in (ground (arith, c, d, e), ground (arith, c, d, e))

  window_bounds-covered :
      (fuel start k : ℕ)
      → length lines ≤ start + fuel
      → start ≤ k
      → k < length lines
      → covered k (window_bounds config lines at fuel start) ≡ true
  unfolding window_bounds
  window_bounds-covered zero start k f a b = absurd (omega arith)
  window_bounds-covered (suc fuel) start k f a b =
      let (c, d) = next_start-bounds start (omega arith) in
      let next = next_start config (length lines) start (core_of config lines start) in
      elim (Bool-cases (ltb k (window_end config lines at start))) [
        | inl e ↦ ground (arith, e)
        | inr e ↦
            ground
              (arith, window_bounds-covered fuel next k (omega (arith, c)) (ground (arith, d, e)) b)
      ]

  window_bounds-IsWindow :
      (fuel start : ℕ) → All (IsWindow config lines) (window_bounds config lines at fuel start)
  unfolding window_bounds
  window_bounds-IsWindow zero start = tt
  window_bounds-IsWindow (suc fuel) start = elim (Bool-cases (ltb start (length lines))) [
    | inl e ↦ rw e (
      IsWindow-window_end start (ground (arith, e)),
      window_bounds-IsWindow fuel
          (next_start config (length lines) start (core_of config lines start)),
    )
    | inr e ↦ rw e tt
  ]

-- Every line of a page is in one of its windows, whatever the budgets, the window size and the
-- overlap are; and each window is a run of the page's lines, not empty, no longer than a request
-- may be or than ten lines more than the window size.
pub page_windows_cover :
    (page : PageManifest) (config : ChunkPlannerConfig)
    → ((k : ℕ) → k < length page.lines → covered k (page_windows page config) ≡ true)
      × All (IsWindow config page.lines) (page_windows page config)
unfolding page_windows
page_windows_cover page config =
    let at = index_by_id page.lines in
    (
      (λ k h.
          window_bounds-covered config page.lines at (length page.lines) 0 k (omega arith)
            (omega arith) h),
      window_bounds-IsWindow config page.lines at (length page.lines) 0,
    )
