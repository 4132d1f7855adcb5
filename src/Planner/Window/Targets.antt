-- ===== src/Planner/Window/Targets.antt =====
-- `_assign_window_targets` of core/planner.py: which of the windows that hold a line it is a target
-- of; and what `_try_window` makes of the windows.
pub mod Owned
use corrigenda.Base.{
  ℕ, zero, suc, max, Bool, true, false, not, ◌&&◌, ◌||◌, Option, none, some, List, [], ◌∷◌, String,
  is_in, length, select, ltb, ◌==◌, if◌then◌else◌,
}
use corrigenda.Manifest.{LineRef, LineManifest, PageManifest}
use corrigenda.Policies.{ChunkPlannerConfig}
use corrigenda.Units.Groups.{HyphenGroup, derive_hyphen_groups}
use corrigenda.Planner.{ChunkGranularity, ChunkRequest, ChunkPlan}
use corrigenda.Planner.Window.{ids_of_windows, page_windows}

-- `membership[lid]`: the windows that hold a line, counted from `n`.
unfoldable pub windows_of : ℕ → String → List (List String) → List ℕ
windows_of n lid [] = []
windows_of n lid (w ∷ ws) =
    let rest = windows_of (suc n) lid ws in if is_in lid w then n ∷ rest else rest

unfoldable pub nat_in : ℕ → List ℕ → Bool
nat_in k [] = false
nat_in k (n ∷ ns) = k == n || nat_in k ns

-- `idxs[-1]`
unfoldable pub last_of : List ℕ → Option ℕ
last_of [] = none
last_of (n ∷ []) = some n
last_of (n ∷ m ∷ ns) = last_of (m ∷ ns)

unfoldable pub max_from : ℕ → List ℕ → ℕ
max_from n [] = n
max_from n (m ∷ ms) = max_from (max n m) ms

unfoldable pub in_windows_of_all : List (List String) → List String → ℕ → Bool
in_windows_of_all ws [] k = true
in_windows_of_all ws (m ∷ ms) k = nat_in k (windows_of 0 m ws) && in_windows_of_all ws ms k

-- `common`: the windows that hold every member.
unfoldable pub common_windows : List (List String) → List String → List ℕ
common_windows ws [] = []
common_windows ws (m ∷ ms) = select (in_windows_of_all ws ms) (windows_of 0 m ws)

-- `target_win`, the window of which each line is a target.
abbrev pub TargetWin : Type 0
TargetWin = String → Option ℕ

unfoldable pub last_window : List (List String) → TargetWin
last_window ws lid = last_of (windows_of 0 lid ws)

unfoldable pub pin : List String → ℕ → TargetWin → TargetWin
pin members win target_win lid = if is_in lid members then some win else target_win lid

unfoldable pub pin_common : List String → List ℕ → TargetWin → TargetWin
pin_common members [] target_win = target_win
pin_common members (k ∷ ks) target_win = pin members (max_from k ks) target_win

-- The loop's body on one component.
unfoldable pub pin_component : List (List String) → List String → TargetWin → TargetWin
pin_component ws members target_win =
    if ltb (length members) 2
    then target_win
    else pin_common members (common_windows ws members) target_win

unfoldable pub pin_all : List (List String) → List (List String) → TargetWin → TargetWin
pin_all ws [] target_win = target_win
pin_all ws (members ∷ rest) target_win = pin_all ws rest (pin_component ws members target_win)

unfoldable pub is_target_at : TargetWin → ℕ → String → Bool
is_target_at target_win n lid = elim (target_win lid) [ none ↦ false | some k ↦ k == n ]

unfoldable pub targets_of : TargetWin → ℕ → List (List String) → List (List String)
targets_of target_win n [] = []
targets_of target_win n (w ∷ ws) =
    select (is_target_at target_win n) w ∷ targets_of target_win (suc n) ws

unfoldable pub is_held : List (List String) → String → Bool
is_held [] lid = false
is_held (w ∷ ws) lid = is_in lid w || is_held ws lid

unfoldable pub held_members : List (List String) → List LineRef → List String
held_members ws [] = []
held_members ws (r ∷ rs) =
    let rest = held_members ws rs in if is_held ws r.line_id then r.line_id ∷ rest else rest

unfoldable pub held_components : List (List String) → List HyphenGroup → List (List String)
held_components ws [] = []
held_components ws (g ∷ gs) = held_members ws g.members ∷ held_components ws gs

-- `_assign_window_targets`; `lines` are the values of `line_by_id`.
unfoldable pub assign_window_targets : List (List String) → List LineManifest → List (List String)
assign_window_targets ws lines =
    let groups = derive_hyphen_groups (select (λ lm. is_held ws lm.line_id) lines) in
    targets_of (pin_all ws (held_components ws groups) (last_window ws)) 0 ws

unfoldable pub window_chunks : String → List (List String) → List (List String) → List ChunkRequest
window_chunks page_id [] targets = []
window_chunks page_id (ids ∷ rest) [] = []
window_chunks page_id (ids ∷ rest) (ts ∷ targets) =
    record {
      page_id = page_id;
      block_id = none;
      granularity = ChunkGranularity.window;
      line_ids = ids;
      target_line_ids = some ts;
    }
    ∷ window_chunks page_id rest targets

unfoldable pub try_window : PageManifest → ChunkPlannerConfig → ChunkPlan
try_window page config =
    let ws = ids_of_windows page.lines (page_windows page config) in
    record {
      page_id = page.page_id;
      chunks = window_chunks page.page_id ws (assign_window_targets ws page.lines);
      granularity = ChunkGranularity.window;
      hyphen_splits = [];
    }
