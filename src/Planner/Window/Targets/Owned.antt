-- ===== src/Planner/Window/Targets/Owned.antt =====
-- The window of which a line is a target (core/planner.py, `_assign_window_targets`).
use corrigenda.Base.{
  ℕ, zero, suc, ◌+◌, ◌<◌, max, Bool, true, false, ◌&&◌, ◌≡◌, refl, sym, ◌∙◌, ap, inl, inr, ◌↔◌,
  none, some, List, [], ◌∷◌, String, eq_iff, is_in, length, select, arith, Bool-cases, Option-cases,
  ltb,
}
use corrigenda.Manifest.{LineManifest}
use corrigenda.Units.Groups.{derive_hyphen_groups}
use corrigenda.Planner.Window.Targets.{
  windows_of, nat_in, last_of, max_from, in_windows_of_all, common_windows, TargetWin, last_window,
  pin, pin_common, pin_component, pin_all, is_target_at, targets_of, is_held, held_components,
  assign_window_targets,
}

-- Window `k` holds a line.
abbrev pub holds : List (List String) → ℕ → String → Bool
holds [] k lid = false
holds (w ∷ ws) zero lid = is_in lid w
holds (w ∷ ws) (suc k) lid = holds ws k lid

nat_in-windows_of_below :
    (lid : String) (ws : List (List String)) (n k : ℕ)
    → k < n
    → nat_in k (windows_of n lid ws) ≡ false
unfolding windows_of nat_in
nat_in-windows_of_below lid [] n k h = refl
nat_in-windows_of_below lid (w ∷ ws) n k h =
    ground (arith, nat_in-windows_of_below lid ws (suc n) k (omega arith))

nat_in-windows_of :
    (lid : String) (ws : List (List String)) (n m k : ℕ)
    → m ≡ n + k
    → nat_in m (windows_of n lid ws) ≡ holds ws k lid
unfolding windows_of nat_in
nat_in-windows_of lid [] n m k h = refl
nat_in-windows_of lid (w ∷ ws) n m zero h =
    ground (arith, nat_in-windows_of_below lid ws (suc n) m (omega arith))
nat_in-windows_of lid (w ∷ ws) n m (suc k) h =
    ground (arith, nat_in-windows_of lid ws (suc n) m k (omega arith))

nat_in-all_windows :
    (lid : String) (ws : List (List String)) (k : ℕ)
    → nat_in k (windows_of 0 lid ws) ≡ holds ws k lid
nat_in-all_windows lid ws k = nat_in-windows_of lid ws 0 k k (omega arith)

windows_of-nil :
    (lid : String) (ws : List (List String)) (n : ℕ)
    → windows_of n lid ws ≡ []
    → is_held ws lid ≡ false
unfolding windows_of is_held
windows_of-nil lid [] n h = refl
windows_of-nil lid (w ∷ ws) n h = ground (arith, windows_of-nil lid ws (suc n))

nat_in-last_of : (l : List ℕ) (k : ℕ) → last_of l ≡ some k → nat_in k l ≡ true
unfolding last_of nat_in
nat_in-last_of [] k h = cc
nat_in-last_of (n ∷ []) k h = ground arith
nat_in-last_of (n ∷ m ∷ ns) k h = ground (arith, nat_in-last_of (m ∷ ns) k h)

last_of-none : (l : List ℕ) → last_of l ≡ none → l ≡ []
unfolding last_of
last_of-none [] h = refl
last_of-none (n ∷ []) h = cc
last_of-none (n ∷ m ∷ ns) h = absurd (ground (arith, last_of-none (m ∷ ns) h))

nat_in-max_from : (n : ℕ) (l : List ℕ) → nat_in (max_from n l) (n ∷ l) ≡ true
unfolding max_from nat_in
nat_in-max_from n [] = ground arith
nat_in-max_from n (m ∷ l) = ground (arith, nat_in-max_from (max n m) l)

nat_in-select : (p : ℕ → Bool) (l : List ℕ) (k : ℕ) → nat_in k (select p l) ≡ (nat_in k l && p k)
unfolding nat_in select
nat_in-select p [] k = refl
nat_in-select p (n ∷ l) k = ground (arith, nat_in-select p l k)

is_in-select :
    (p : String → Bool) (l : List String) (x : String) → is_in x (select p l) ≡ (is_in x l && p x)
unfolding is_in select
is_in-select p [] x = refl
is_in-select p (y ∷ l) x = ground (arith, is_in-select p l x, eq_iff x y)

in_windows_of_all-holds :
    (ws : List (List String)) (members : List String) (k : ℕ) (lid : String)
    → in_windows_of_all ws members k ≡ true
    → is_in lid members ≡ true
    → holds ws k lid ≡ true
unfolding in_windows_of_all is_in
in_windows_of_all-holds ws [] k lid h m = cc
in_windows_of_all-holds ws (x ∷ members) k lid h m =
    ground
      (arith, in_windows_of_all-holds ws members k lid, eq_iff lid x, nat_in-all_windows x ws k)

common_windows-holds :
    (ws : List (List String)) (members : List String) (k : ℕ) (lid : String)
    → nat_in k (common_windows ws members) ≡ true
    → is_in lid members ≡ true
    → holds ws k lid ≡ true
unfolding common_windows is_in
common_windows-holds ws [] k lid h m = cc
common_windows-holds ws (x ∷ members) k lid h m = ground (
  arith,
  in_windows_of_all-holds ws members k lid,
  eq_iff lid x,
  nat_in-all_windows x ws k,
  nat_in-select (in_windows_of_all ws members) (windows_of 0 x ws) k,
)

-- An assignment that gives each line that is held a window that holds it.
record IsAssignment (ws : List (List String)) (target_win : TargetWin) : Type 0 where
  within : (lid : String) (k : ℕ) → target_win lid ≡ some k → holds ws k lid ≡ true
  total : (lid : String) → target_win lid ≡ none → is_held ws lid ≡ false

last_window-IsAssignment : (ws : List (List String)) → IsAssignment ws (last_window ws)
unfolding last_window
last_window-IsAssignment ws = record {
  within = λ lid k h. sym (nat_in-all_windows lid ws k) ∙ nat_in-last_of (windows_of 0 lid ws) k h;
  total = λ lid h. windows_of-nil lid ws 0 (last_of-none (windows_of 0 lid ws) h);
}

pin_common-IsAssignment :
    (ws : List (List String)) (members : List String) (common : List ℕ) (target_win : TargetWin)
    → ((k : ℕ) (lid : String)
        → nat_in k common ≡ true
        → is_in lid members ≡ true
        → holds ws k lid ≡ true)
    → IsAssignment ws target_win
    → IsAssignment ws (pin_common members common target_win)
unfolding pin_common pin
pin_common-IsAssignment ws members [] target_win c a = a
pin_common-IsAssignment ws members (n ∷ ns) target_win c a = record {
  within = λ lid k h. ground (arith, a.within lid k, c k lid, nat_in-max_from n ns);
  total = λ lid h. ground (arith, a.total lid);
}

pin_all-IsAssignment :
    (ws : List (List String)) (components : List (List String)) (target_win : TargetWin)
    → IsAssignment ws target_win
    → IsAssignment ws (pin_all ws components target_win)
unfolding pin_all pin_component
pin_all-IsAssignment ws [] target_win a = a
pin_all-IsAssignment ws (members ∷ rest) target_win a =
    pin_all-IsAssignment ws rest (pin_component ws members target_win)
      (elim (Bool-cases (ltb (length members) 2)) [
        | inl e ↦ rw e a
        | inr e ↦ rw e (
            pin_common-IsAssignment ws members (common_windows ws members) target_win
              (common_windows-holds ws members) a)
      ])

holds-targets_of :
    (target_win : TargetWin) (ws : List (List String)) (n m : ℕ) (lid : String)
    → holds (targets_of target_win n ws) m lid
      ≡ (holds ws m lid && is_target_at target_win (n + m) lid)
unfolding targets_of
holds-targets_of target_win [] n m lid = refl
holds-targets_of target_win (w ∷ ws) n zero lid =
    is_in-select (is_target_at target_win n) w lid
    ∙ ap (λ k. is_in lid w && is_target_at target_win k lid) (omega arith)
holds-targets_of target_win (w ∷ ws) n (suc m) lid =
    holds-targets_of target_win ws (suc n) m lid
    ∙ ap (λ k. holds ws m lid && is_target_at target_win k lid) (omega arith)

-- A line has an owner: the one window of whose targets it is, which holds it.
pub record IsOwned (ws targets : List (List String)) (lid : String) : Type 0 where
  pub owner : ℕ
  pub held : holds ws owner lid ≡ true
  pub once : (n : ℕ) → (holds targets n lid ≡ true) ↔ (n ≡ owner)

IsOwned-targets_of :
    (ws : List (List String)) (target_win : TargetWin) (lid : String)
    → IsAssignment ws target_win
    → is_held ws lid ≡ true
    → IsOwned ws (targets_of target_win 0 ws) lid
unfolding is_target_at
IsOwned-targets_of ws target_win lid a h = elim (Option-cases (target_win lid)) [
  | inl e ↦ absurd (ground (arith, a.total lid e))
  | inr (k, e) ↦ record {
    owner = k;
    held = a.within lid k e;
    once = λ n. ground (arith, e, holds-targets_of target_win ws 0 n lid, a.within lid k e);
  }
]

-- Each line that some window holds is a target of exactly one window, and that window holds it.
pub assign_window_targets-IsOwned :
    (ws : List (List String)) (lines : List LineManifest) (lid : String)
    → is_held ws lid ≡ true
    → IsOwned ws (assign_window_targets ws lines) lid
unfolding assign_window_targets
assign_window_targets-IsOwned ws lines lid h =
    let groups = derive_hyphen_groups (select (λ lm. is_held ws lm.line_id) lines) in
    IsOwned-targets_of ws (pin_all ws (held_components ws groups) (last_window ws)) lid
      (pin_all-IsAssignment ws (held_components ws groups) (last_window ws)
        (last_window-IsAssignment ws))
      h
