-- ===== src/Acceptance/Order.antt =====
-- `_FinalizeOrder` of core/acceptance.py: the orders in which the passes may run.
use corrigenda.Base.{
  Bool, true, false, ◌&&◌, ◌≡◌, refl, Option, none, some, List, [], ◌∷◌, if◌then◌else◌,
}
use corrigenda.Acceptance.{Pass, entering, required_by, all_done, is_done, same_pass}

-- Passes that announce themselves one after the other: the token after them, or the RuntimeError.
unfoldable pub enter_all : List Pass → List Pass → Option (List Pass)
enter_all done [] = some done
enter_all done (p ∷ ps) = elim (entering p (required_by p) done) [
  | none ↦ none
  | some done' ↦ enter_all done' ps
]

abbrev pub canonical : List Pass
canonical = Pass.adjacency ∷ Pass.break_chars ∷ Pass.loss_policy ∷ []

unfoldable pub is_beginning : List Pass → List Pass → Bool
is_beginning [] qs = true
is_beginning (p ∷ ps) [] = false
is_beginning (p ∷ ps) (q ∷ qs) = same_pass p q && is_beginning ps qs

-- A run of passes is let through exactly if it is the three passes in their one order, or a
-- beginning of that, and then the token has the passes that ran; with a pass that comes early, twice
-- or after another one was left out, the run is refused.
pub enter_all-canonical :
    (ps : List Pass) → enter_all [] ps ≡ (if is_beginning ps canonical then some ps else none)
unfolding enter_all entering required_by all_done is_done same_pass is_beginning
enter_all-canonical [] = refl
enter_all-canonical (Pass.break_chars ∷ ps) = refl
enter_all-canonical (Pass.loss_policy ∷ ps) = refl
enter_all-canonical (Pass.adjacency ∷ []) = refl
enter_all-canonical (Pass.adjacency ∷ Pass.adjacency ∷ ps) = refl
enter_all-canonical (Pass.adjacency ∷ Pass.loss_policy ∷ ps) = refl
enter_all-canonical (Pass.adjacency ∷ Pass.break_chars ∷ []) = refl
enter_all-canonical (Pass.adjacency ∷ Pass.break_chars ∷ Pass.adjacency ∷ ps) = refl
enter_all-canonical (Pass.adjacency ∷ Pass.break_chars ∷ Pass.break_chars ∷ ps) = refl
enter_all-canonical (Pass.adjacency ∷ Pass.break_chars ∷ Pass.loss_policy ∷ []) = refl
enter_all-canonical (Pass.adjacency ∷ Pass.break_chars ∷ Pass.loss_policy ∷ Pass.adjacency ∷ ps) =
    refl
enter_all-canonical (Pass.adjacency ∷ Pass.break_chars ∷ Pass.loss_policy ∷ Pass.break_chars ∷ ps) =
    refl
enter_all-canonical (Pass.adjacency ∷ Pass.break_chars ∷ Pass.loss_policy ∷ Pass.loss_policy ∷ ps) =
    refl
