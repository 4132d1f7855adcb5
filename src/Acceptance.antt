-- ===== src/Acceptance.antt =====
-- core/acceptance.py: the order token of the document-wide passes, and the reverts that take a whole
-- hyphen unit with them. The source's passes mutate the lines of the document, which its index
-- shares; the model returns the document. A reference names one line of a document
-- (core/identity.py refuses a document where it does not), so the line that the index holds for it
-- is the line of the document with this reference.
pub mod Order
pub mod Settled
pub mod Pulled
pub mod Atomic
use corrigenda.Base.{
  Bool, true, false, not, ◌&&◌, ◌||◌, Option, none, some, List, [], ◌∷◌, ◌++◌, Text, codes,
  if◌then◌else◌,
}
use corrigenda.Manifest.{LineManifest, LineRef, PageManifest, line_ref, ref_eq}
use corrigenda.Decide.{Traces, fall_back}
use corrigenda.Units.Groups.{HyphenGroup, at_ref, set_ref, ref_in, derive_hyphen_groups}
use corrigenda.Guards.{Reverts, is_flagged}

-- The passes that `_FinalizeOrder` knows.
pub data Pass : Type 0 where
  adjacency break_chars loss_policy : Pass

unfoldable pub same_pass : Pass → Pass → Bool
same_pass Pass.adjacency Pass.adjacency = true
same_pass Pass.break_chars Pass.break_chars = true
same_pass Pass.loss_policy Pass.loss_policy = true
same_pass _ _ = false

unfoldable pub is_done : Pass → List Pass → Bool
unfolding same_pass
is_done step [] = false
is_done step (p ∷ ps) = same_pass step p || is_done step ps

unfoldable pub all_done : List Pass → List Pass → Bool
unfolding is_done
all_done [] done = true
all_done (r ∷ requires) done = is_done r done && all_done requires done

-- `_FinalizeOrder.entering`: `none` is the RuntimeError.
unfoldable pub entering : Pass → List Pass → List Pass → Option (List Pass)
unfolding all_done is_done
entering step requires done =
    if not (all_done requires done)
    then none
    else if is_done step done
    then none
    else some (done ++ step ∷ [])

-- What each pass says that it requires.
unfoldable pub required_by : Pass → List Pass
required_by Pass.adjacency = []
required_by Pass.break_chars = Pass.adjacency ∷ []
required_by Pass.loss_policy = Pass.adjacency ∷ Pass.break_chars ∷ []

-- The lines of a document and the traces of the run.
pub record Document : Type 0 where
  pub pages : List PageManifest
  pub traces : Option Traces

-- `all_lines.values()`
unfoldable pub document_lines : List PageManifest → List LineManifest
document_lines [] = []
document_lines (p ∷ pages) = p.lines ++ document_lines pages

-- The fallback of the line that `r` names, wherever it stands.
unfoldable pub revert_line :
    LineRef → Text → LineManifest → Option Traces → LineManifest × Option Traces
unfolding fall_back line_ref
revert_line r reason lm traces =
    if ref_eq r (line_ref lm) then fall_back lm reason traces else (lm, traces)

unfoldable pub revert_lines :
    LineRef → Text → List LineManifest → Option Traces → List LineManifest × Option Traces
unfolding revert_line
revert_lines r reason [] traces = ([], traces)
revert_lines r reason (lm ∷ lines) traces =
    let (lm', traces1) = revert_line r reason lm traces in
    let (lines', traces2) = revert_lines r reason lines traces1 in (lm' ∷ lines', traces2)

unfoldable pub revert_pages :
    LineRef → Text → List PageManifest → Option Traces → List PageManifest × Option Traces
unfolding revert_lines
revert_pages r reason [] traces = ([], traces)
revert_pages r reason (p ∷ pages) traces =
    let (lines', traces1) = revert_lines r reason p.lines traces in
    let (pages', traces2) = revert_pages r reason pages traces1 in
    (record p { lines = lines' } ∷ pages', traces2)

-- `for ref, reason in to_revert.items()`
unfoldable pub revert_all : Reverts → List PageManifest → Option Traces → Document
unfolding revert_pages
revert_all [] pages traces = record { pages = pages; traces = traces }
revert_all ((r, reason) ∷ rest) pages traces =
    let (pages', traces') = revert_pages r reason pages traces in revert_all rest pages' traces'

-- `hyphen_group_by_line`, looked up: of two groups with the line the later one.
unfoldable pub group_by_line : List HyphenGroup → LineRef → Option HyphenGroup
unfolding ref_in
group_by_line [] r = none
group_by_line (g ∷ groups) r = elim (group_by_line groups r) [
  | some later ↦ some later
  | none ↦ if ref_in r g.members then some g else none
]

-- `to_revert.setdefault(member, atomicity_reason)` for each member.
unfoldable pub pull_members : Text → List LineRef → Reverts → Reverts
unfolding is_flagged set_ref
pull_members reason [] to_revert = to_revert
pull_members reason (m ∷ members) to_revert =
    pull_members reason members
      (if is_flagged m to_revert then to_revert else set_ref m reason to_revert)

unfoldable pub pull_units : Text → List HyphenGroup → Reverts → Reverts → Reverts
unfolding group_by_line pull_members
pull_units reason groups [] to_revert = to_revert
pull_units reason groups ((r, own) ∷ reverts) to_revert =
    pull_units reason groups reverts (elim (group_by_line groups r) [
      | none ↦ to_revert
      | some g ↦ pull_members reason g.members to_revert
    ])

abbrev pub adjacent_duplicate_pair_atomicity : Text
adjacent_duplicate_pair_atomicity = codes "adjacent_duplicate_pair_atomicity"

-- `_apply_unit_reverts`: the reverts with those that were pulled, and the document after them.
unfoldable pub apply_unit_reverts : Reverts → Text → Document → Reverts × Document
unfolding pull_units revert_all derive_hyphen_groups document_lines
apply_unit_reverts [] atomicity_reason d = ([], d)
apply_unit_reverts (first ∷ reverts) atomicity_reason d =
    let groups = derive_hyphen_groups (document_lines d.pages) in
    let to_revert = pull_units atomicity_reason groups (first ∷ reverts) (first ∷ reverts) in
    (to_revert, revert_all to_revert d.pages d.traces)
