-- ===== src/Examples/Finalize.antt =====
-- Examples for Guards, Acceptance, Decisions and Finalize (core/guards.py, core/acceptance.py,
-- core/decisions.py, core/finalize.py).
use corrigenda.Base.{
  text_eq, ◌≡◌, ◌↔◌, refl, true, false, none, some, List, [], ◌∷◌, Text, codes, All, map,
  if◌then◌else◌,
}
use corrigenda.Manifest.{LineManifest, LineStatus, LineRef, PageManifest}
use corrigenda.Units.Groups.{
  sort_by, groups_of, components_of, index_lines, add_member, root_of, find_root, follow_all,
  follow, self_parents, unite, parent_of, insert_by, group_of_members, order_of,
}
use corrigenda.Pairing.{pair_ref, forward_ref}
use corrigenda.Reconcile.{is_fallback}
use corrigenda.Guards.{
  SegmentLine, similarity, is_flagged, is_duplicate, check_adjacent_duplicates,
  check_boundary_migration,
}
use corrigenda.Guards.Seams.{
  beside_seam, CrossedBeside, check_adjacent_duplicates-flagged, check_boundary_migration-flagged,
}
use corrigenda.Acceptance.{Pass, Document, document_lines, apply_unit_reverts}
use corrigenda.Acceptance.Order.{enter_all, canonical, is_beginning, enter_all-canonical}
use corrigenda.Acceptance.Atomic.{IsAtomic, apply_unit_reverts-IsAtomic}
use corrigenda.Decisions.{LineDecision, is_pending}
use corrigenda.Finalize.{format_loss_pair_atomicity, loss_policy_pass, finalize_document}
use corrigenda.Finalize.Kept.{IsDecided}
use corrigenda.Finalize.Decided.{IsFinal, finalize_document-IsFinal}
use corrigenda.Finalize.Strict.{IsProjectable, loss_policy_pass-IsProjectable}
use corrigenda.Examples.Samples.{fractions, plain, default_guard, fresh, opening, closing}

-- A word broken over "a" and "b", both corrected, and a line that fell back.
abbrev line_a : LineManifest
line_a = record (opening "a" "b" (codes "the intcr-")) {
  corrected_text = some (codes "the long inter-");
  status = LineStatus.corrected;
  word_count = some 2;
}

abbrev line_b : LineManifest
line_b = record (closing "b" "a" (codes "natlonal end")) {
  corrected_text = some (codes "national end");
  status = LineStatus.corrected;
  word_count = some 2;
}

abbrev line_c : LineManifest
line_c = record (fresh "c" (codes "other")) {
  corrected_text = some (codes "other");
  status = LineStatus.fallback;
}

abbrev page : PageManifest
page = record {
  page_id = "p";
  source_file = "f.xml";
  page_index = 0;
  page_width = 100;
  page_height = 100;
  blocks = [];
  lines = line_a ∷ line_b ∷ line_c ∷ [];
}

abbrev document : Document
document = record { pages = page ∷ []; traces = none }

abbrev ref_of : LineManifest → LineRef
ref_of lm = record { page_id = lm.page_id; line_id = lm.line_id }

-- The gate flags "a" alone, and "b" falls back with it.
strict_reverts_pair :
    map (λ lm. lm.corrected_text) (document_lines (loss_policy_pass true document).pages)
    ≡ some (codes "the intcr-") ∷ some (codes "natlonal end") ∷ some (codes "other") ∷ []
unfolding document_lines loss_policy_pass pair_ref forward_ref text_eq sort_by groups_of
    components_of index_lines add_member root_of find_root follow_all follow self_parents unite
    parent_of insert_by group_of_members order_of
strict_reverts_pair = refl

apply_unit_reverts-IsAtomic_example :
    IsAtomic ((ref_of line_a, codes "rejected") ∷ []) format_loss_pair_atomicity document (
      apply_unit_reverts
        ((ref_of line_a, codes "rejected") ∷ [])
        format_loss_pair_atomicity
        document)
apply_unit_reverts-IsAtomic_example =
    apply_unit_reverts-IsAtomic ((ref_of line_a, codes "rejected") ∷ []) format_loss_pair_atomicity
      document

loss_policy_pass-IsProjectable_example :
    All IsProjectable (document_lines (loss_policy_pass true document).pages)
loss_policy_pass-IsProjectable_example = loss_policy_pass-IsProjectable document

document-IsDecided : All IsDecided (document_lines document.pages)
unfolding document_lines is_pending is_fallback
document-IsDecided = (
  record { terminal = refl; fallen = λ h. absurd (cc) },
  (
    record { terminal = refl; fallen = λ h. absurd (cc) },
    (record { terminal = refl; fallen = λ h. refl }, tt),
  ),
)

finalize_document-IsFinal_example :
    (ds : List LineDecision) × (finalize_document fractions plain default_guard true document
      ≡ some ds)
    × IsFinal (document_lines document.pages) ds
finalize_document-IsFinal_example =
    finalize_document-IsFinal fractions plain default_guard true document document-IsDecided

enter_all-canonical_example : enter_all [] (Pass.adjacency ∷ Pass.loss_policy ∷ []) ≡ (
    if is_beginning (Pass.adjacency ∷ Pass.loss_policy ∷ []) canonical
    then some (Pass.adjacency ∷ Pass.loss_policy ∷ [])
    else none)
enter_all-canonical_example = enter_all-canonical (Pass.adjacency ∷ Pass.loss_policy ∷ [])

-- Three lines to which the producer gave one text.
abbrev entry : LineManifest → Text → SegmentLine
entry lm text = record { ref = ref_of lm; source = lm.ocr_text; corrected = text }

abbrev segment : List SegmentLine
segment =
    entry line_a (codes "the end")
    ∷ entry line_b (codes "the end")
    ∷ entry line_c (codes "the end")
    ∷ []

check_adjacent_duplicates-flagged_example :
    is_flagged (ref_of line_c) (check_adjacent_duplicates fractions default_guard segment)
    ≡ beside_seam (is_duplicate fractions default_guard) (ref_of line_c) segment
check_adjacent_duplicates-flagged_example =
    check_adjacent_duplicates-flagged fractions default_guard segment
      ((refl, (refl, tt)), ((refl, tt), (tt, tt))) (ref_of line_c)

third_flagged :
    is_flagged (ref_of line_c) (check_adjacent_duplicates fractions default_guard segment) ≡ true
unfolding is_flagged check_adjacent_duplicates
third_flagged = refl

-- The first word of the second line moved up to the end of the first one.
abbrev moved_segment : List SegmentLine
moved_segment =
    record { ref = ref_of line_a; source = codes "voir le"; corrected = codes "voir chat" }
    ∷ record { ref = ref_of line_b; source = codes "chat noir"; corrected = codes "noir" }
    ∷ entry line_c (codes "other")
    ∷ []

check_boundary_migration-flagged_example :
    (is_flagged
        (ref_of line_b)
        (check_boundary_migration fractions default_guard plain moved_segment)
      ≡ true)
    ↔ CrossedBeside fractions default_guard plain (ref_of line_b) moved_segment
check_boundary_migration-flagged_example =
    check_boundary_migration-flagged fractions default_guard plain moved_segment (ref_of line_b)

second_flagged :
    is_flagged
      (ref_of line_b)
      (check_boundary_migration fractions default_guard plain moved_segment)
    ≡ true
unfolding is_flagged check_boundary_migration text_eq
second_flagged = refl

-- The third line has a neighbour that lost a word, and no word of its own moved.
third_not_flagged :
    is_flagged
      (ref_of line_c)
      (check_boundary_migration fractions default_guard plain moved_segment)
    ≡ false
unfolding is_flagged check_boundary_migration text_eq
third_not_flagged = refl

-- difflib.SequenceMatcher(None, "abcd", "bcde").ratio() is 6/8.
similarity_bcd : similarity fractions (codes "abcd") (codes "bcde") ≡ (6, 8)
unfolding similarity
similarity_bcd = refl
