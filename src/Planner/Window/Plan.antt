-- ===== src/Planner/Window/Plan.antt =====
-- The plan of `_try_window` of core/planner.py, and the chunk that corrects a line.
use corrigenda.Base.{
  ℕ, zero, suc, ◌+◌, ◌-◌, ◌≤◌, ◌<◌, true, ◌&&◌, ◌≡◌, refl, ap, inl, inr, some, List, [], ◌∷◌,
  String, eq_iff, is_in, get_elem?, select, take, drop, ltb, leb, arith, Bool-cases,
}
use corrigenda.Manifest.{LineManifest, PageManifest}
use corrigenda.Policies.{ChunkPlannerConfig}
use corrigenda.Units.Groups.{derive_hyphen_groups}
use corrigenda.Planner.{target_ids_of, chunk_ids, ids_of_lines, chunk_targets}
use corrigenda.Planner.Segments.{get_elem?-some_bound}
use corrigenda.Planner.Window.{ids_of_windows, page_windows}
use corrigenda.Planner.Window.Cover.{covered, page_windows_cover}
use corrigenda.Planner.Window.Targets.{
  TargetWin, is_target_at, targets_of, pin_all, last_window, is_held, held_components,
  assign_window_targets, window_chunks, try_window,
}
use corrigenda.Planner.Window.Targets.Owned.{IsOwned, assign_window_targets-IsOwned}

is_in-take-drop :
    (lines : List LineManifest) (a m k : ℕ) (lm : LineManifest)
    → a ≤ k
    → k < a + m
    → get_elem? lines k ≡ some lm
    → is_in lm.line_id (ids_of_lines (take m (drop a lines))) ≡ true
unfolding is_in ids_of_lines
is_in-take-drop [] a m k lm p q h = cc
is_in-take-drop (x ∷ lines) zero zero k lm p q h = absurd (omega arith)
is_in-take-drop (x ∷ lines) zero (suc m) zero lm p q h = ground (arith, eq_iff lm.line_id x.line_id)
is_in-take-drop (x ∷ lines) zero (suc m) (suc k) lm p q h =
    ground (arith, is_in-take-drop lines 0 m k lm (omega arith) (omega arith) h)
is_in-take-drop (x ∷ lines) (suc a) m zero lm p q h = absurd (omega arith)
is_in-take-drop (x ∷ lines) (suc a) m (suc k) lm p q h =
    is_in-take-drop lines a m k lm (omega arith) (omega arith) h

is_held-covered :
    (lines : List LineManifest) (bounds : List (ℕ × ℕ)) (k : ℕ) (lm : LineManifest)
    → get_elem? lines k ≡ some lm
    → covered k bounds ≡ true
    → is_held (ids_of_windows lines bounds) lm.line_id ≡ true
unfolding is_held ids_of_windows
is_held-covered lines [] k lm h c = cc
is_held-covered lines ((a, b) ∷ rest) k lm h c = elim (Bool-cases (leb a k && ltb k b)) [
  | inl e ↦ ground (arith, is_in-take-drop lines a (b - a) k lm (ground arith) (ground arith) h)
  | inr e ↦ ground (arith, is_held-covered lines rest k lm h)
]

pub chunk_ids-window_chunks :
    (page_id : String) (target_win : TargetWin) (n : ℕ) (ws : List (List String))
    → chunk_ids (window_chunks page_id ws (targets_of target_win n ws)) ≡ ws
unfolding window_chunks targets_of
chunk_ids-window_chunks page_id target_win n [] = refl
chunk_ids-window_chunks page_id target_win n (w ∷ ws) =
    ap (λ t. w ∷ t) (chunk_ids-window_chunks page_id target_win (suc n) ws)

target_ids_of-window_chunks :
    (page_id : String) (target_win : TargetWin) (n : ℕ) (ws : List (List String))
    → target_ids_of (window_chunks page_id ws (targets_of target_win n ws))
      ≡ targets_of target_win n ws
unfolding window_chunks targets_of chunk_targets
target_ids_of-window_chunks page_id target_win n [] = refl
target_ids_of-window_chunks page_id target_win n (w ∷ ws) =
    ap (λ t. select (is_target_at target_win n) w ∷ t)
      (target_ids_of-window_chunks page_id target_win (suc n) ws)

-- In the window plan of a page, each line of the page is a target of exactly one chunk, and that
-- chunk holds it, whatever the configuration and the hyphen links are.
pub try_window-IsOwned :
    (page : PageManifest) (config : ChunkPlannerConfig) (k : ℕ) (lm : LineManifest)
    → get_elem? page.lines k ≡ some lm
    → IsOwned
        (chunk_ids (try_window page config).chunks)
        (target_ids_of (try_window page config).chunks)
        lm.line_id
unfolding try_window assign_window_targets
try_window-IsOwned page config k lm h =
    let ws = ids_of_windows page.lines (page_windows page config) in
    let groups = derive_hyphen_groups (select (λ m. is_held ws m.line_id) page.lines) in
    let target_win = pin_all ws (held_components ws groups) (last_window ws) in
    let held =
      is_held-covered page.lines (page_windows page config) k lm h
        ((page_windows_cover page config).0 k (get_elem?-some_bound page.lines k lm h)) in
    rw
      (
        chunk_ids-window_chunks page.page_id target_win 0 ws,
        target_ids_of-window_chunks page.page_id target_win 0 ws,
      )
      (assign_window_targets-IsOwned ws page.lines lm.line_id held)
