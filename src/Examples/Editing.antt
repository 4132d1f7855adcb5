-- ===== src/Examples/Editing.antt =====
-- Examples for Editing (core/editing.py).
use corrigenda.Base.{
  String, lookup, true, false, ◌≡◌, refl, ◌⊎◌, Option, none, some, List, [], ◌∷◌, Text, codes,
  is_in, is_space, is_empty, keep_if, rstrip_by, rstrip, lstrip, strip, ends_in, is_prefix, find,
  find_from, slice, length, pos, All, str_eq, text_eq, is_blank, if◌then◌else◌, arith,
}
use corrigenda.Manifest.{HyphenRole, wants_forward, wants_backward}
use corrigenda.Marks.{char_in, is_break_mark, ends_with_break_mark, strip_trailing_break_marks}
use corrigenda.Editing.Ops.{
  match, range, EditOp, whole, span, EditScript, EditResult, accepted, EditRejection, OpKind,
  Reason,
}
use corrigenda.Editing.Anchor.{starts_loop, all_starts, range_of, pick_start, normalize_anchor}
use corrigenda.Editing.Occurrences.{IsRangeOf, normalize_anchor-IsRangeOf}
use corrigenda.Editing.Drift.{
  is_separator, has_line_separator, common_upto, common_prefix, common_suffix, changed_chars,
  ends_in_space, ends_in_blank, e5_hyphen_ok, count_spaces, count_word, skip_spaces,
  first_word_range, erases, any_erases, e5b_boundary_word_kept,
}
use corrigenda.Editing.Window.{IsLeastWindow, changed_chars-Window}
use corrigenda.Editing.Line.{
  Spans, line_ops, span_ops, put_span, insert_desc, sort_desc, put_all, apply_spans, key_le,
  insert_asc, sort_asc, overlaps, accept_spans, total_changed, refuse, overlap_refusals,
  check_growth, check_span, add_checked, normalize_spans, whole_line_drift_refusal, checked_unless,
  whole_line_verdict, e5_refusal, spans_verdict, line_result, apply_accepted, apply_normalized,
  apply_by_kind, apply_line_ops,
}
use corrigenda.Editing.Splice.{weave, InBounds, Apart, apply_spans-eq-weave}
use corrigenda.Editing.Verdicts.{Kept, apply_line_ops-Kept}
use corrigenda.Editing.Accounts.{IsAccounted, apply_line_ops-IsAccounted}
use corrigenda.Editing.Script.{
  replace_line_script, Target, op_line, op_page, op_kind, in_scope, add_op, group_ops,
  expected_digest, refuse_all, is_target, digest_agrees, add_line, speaks, apply_known, apply_group,
  apply_groups, apply_edit_script,
}
use corrigenda.Editing.Script.Published.{IsPublished, apply_edit_script-IsPublished}
use corrigenda.Editing.Script.Accounted.{IsAnswered, apply_edit_script-IsAnswered}
use corrigenda.Editing.Script.RoundTrip.{
  IsDict, IsProposable, apply_edit_script-replace_line_script,
}
use corrigenda.Examples.Samples.{fractions, default_guard}

abbrev canonical : Text
canonical = codes "a qick bown fox"

-- "ick" for "uick", and the fourth word anchored by offset.
abbrev quick : EditOp
quick = span (record {
  line_id = "l";
  anchor = match (codes "qick") none;
  text = codes "quick";
  page_id = none;
})

abbrev brown : EditOp
brown = span (record {
  line_id = "l";
  anchor = range (pos 7) (pos 11);
  text = codes "brown";
  page_id = none;
})

abbrev document : Target
document = record {
  canonical_by_id = λ i. if str_eq i "l" then some canonical else none;
  chunk_line_ids = some ("l" ∷ []);
  role_of = λ i. HyphenRole.no_role;
  page_id = none;
  line_digest = λ t. "digest";
}

abbrev mended : Text
mended = codes "a quick brown fox"

-- The operations on the line, computed.
unfoldable run : List EditOp → Option Text × List EditRejection
unfolding line_ops span_ops put_span insert_desc sort_desc put_all apply_spans key_le insert_asc
    sort_asc overlaps accept_spans total_changed refuse overlap_refusals check_growth check_span
    add_checked normalize_spans whole_line_drift_refusal checked_unless whole_line_verdict
    e5_refusal spans_verdict line_result apply_accepted apply_normalized apply_by_kind
    apply_line_ops starts_loop all_starts range_of pick_start normalize_anchor is_separator
    has_line_separator common_upto common_prefix common_suffix changed_chars ends_in_space
    ends_in_blank e5_hyphen_ok count_spaces count_word skip_spaces first_word_range erases
    any_erases e5b_boundary_word_kept text_eq is_space is_empty keep_if rstrip_by rstrip lstrip
    strip is_blank ends_in is_prefix find find_from slice char_in is_break_mark ends_with_break_mark
    strip_trailing_break_marks wants_forward wants_backward
run ops = apply_line_ops fractions default_guard "l" ops canonical HyphenRole.no_role

unfoldable replay : EditScript → Option EditResult
unfolding run op_line op_page op_kind in_scope add_op group_ops expected_digest refuse_all is_target
    digest_agrees add_line speaks apply_known apply_group apply_groups apply_edit_script is_in
replay script = apply_edit_script fractions default_guard document script

mends :
    (apply_line_ops fractions default_guard "l" (brown ∷ quick ∷ []) canonical HyphenRole.no_role).0
    ≡ some mended
unfolding run
mends = refl

apply_line_ops-Kept_example :
    Kept fractions default_guard (brown ∷ quick ∷ []) HyphenRole.no_role canonical mended
apply_line_ops-Kept_example =
    apply_line_ops-Kept fractions default_guard (brown ∷ quick ∷ []) "l" HyphenRole.no_role
      canonical mended mends

apply_line_ops-IsAccounted_example :
    IsAccounted fractions default_guard
      (brown ∷ brown ∷ [])
      "l"
      canonical
      (apply_line_ops fractions default_guard "l" (brown ∷ brown ∷ []) canonical HyphenRole.no_role)
apply_line_ops-IsAccounted_example =
    apply_line_ops-IsAccounted fractions default_guard brown (brown ∷ []) "l" HyphenRole.no_role
      canonical

-- Two spans that are the same overlap, and the second is refused.
overlap_test :
    (apply_line_ops fractions default_guard "l" (brown ∷ brown ∷ []) canonical HyphenRole.no_role).1
    ≡ record { line_id = "l"; op = OpKind.replace_span; reason = Reason.overlap } ∷ []
unfolding run
overlap_test = refl

normalizes :
    normalize_anchor (match (codes "qick") none) canonical
    ≡ accepted (record { start = 2; end = 6 })
unfolding run
normalizes = refl

normalize_anchor-IsRangeOf_example :
    IsRangeOf (match (codes "qick") none) canonical (record { start = 2; end = 6 })
normalize_anchor-IsRangeOf_example =
    normalize_anchor-IsRangeOf (match (codes "qick") none) canonical (record { start = 2; end = 6 })
      normalizes

changed_chars-Window_example : IsLeastWindow canonical mended (changed_chars canonical mended)
changed_chars-Window_example = changed_chars-Window canonical mended

abbrev two_spans : Spans
two_spans =
    (record { start = 7; end = 11 }, codes "brown")
    ∷ (record { start = 2; end = 6 }, codes "quick")
    ∷ []

abbrev two_spans-InBounds : All (InBounds (length canonical)) two_spans
two_spans-InBounds =
    let far : InBounds (length canonical) (record { start = 7; end = 11 }, codes "brown") = record {
      ordered = omega arith;
      within = omega arith;
    } in
    let near : InBounds (length canonical) (record { start = 2; end = 6 }, codes "quick") = record {
      ordered = omega arith;
      within = omega arith;
    } in
    (far, (near, tt))

apply_spans-eq-weave_example :
    let kept = accept_spans none (sort_asc two_spans) in
    (apply_spans canonical kept ≡ weave 0 canonical kept) × Apart (length canonical) 0 0 kept
apply_spans-eq-weave_example = apply_spans-eq-weave canonical two_spans two_spans-InBounds

abbrev script : EditScript
script = record {
  ops = quick ∷ whole (record { line_id = "unknown"; text = mended; page_id = none }) ∷ brown ∷ [];
  protocol_version = some "1";
  preconditions = record { line_id = "l"; page_id = none; digest = "digest" } ∷ [];
}

abbrev published : EditResult
published = record {
  text_by_id = ("l", mended) ∷ [];
  rejected =
      record { line_id = "unknown"; op = OpKind.replace_line; reason = Reason.unknown_line } ∷ [];
}

publishes : apply_edit_script fractions default_guard document script ≡ some published
unfolding replay
publishes = refl

apply_edit_script-IsPublished_example :
    All (IsPublished fractions default_guard document script) published.text_by_id
apply_edit_script-IsPublished_example =
    apply_edit_script-IsPublished fractions default_guard document script published publishes

apply_edit_script-IsAnswered_example :
    ((speaks script.protocol_version ≡ true)
      × ((result : EditResult) × (apply_edit_script fractions default_guard document script
            ≡ some result)
          × All (IsAnswered fractions default_guard document result) script.ops))
    ⊎ ((speaks script.protocol_version ≡ false)
        × (apply_edit_script fractions default_guard document script ≡ none))
apply_edit_script-IsAnswered_example =
    apply_edit_script-IsAnswered fractions default_guard document script

abbrev texts : List (String × Text)
texts = ("l", mended) ∷ ("unknown", mended) ∷ []

texts-IsDict : IsDict texts
unfolding lookup
texts-IsDict = (refl, (refl, tt))

apply_edit_script-replace_line_script_example :
    (result : EditResult) × (apply_edit_script fractions default_guard document
        (replace_line_script texts)
      ≡ some result)
    × ((i : String) (t : Text)
        → lookup i texts ≡ some t
        → IsProposable fractions default_guard document i t
        → lookup i result.text_by_id ≡ some t)
apply_edit_script-replace_line_script_example =
    apply_edit_script-replace_line_script fractions default_guard document texts texts-IsDict

-- The guards have nothing against the entry of the line that the document has.
mended-IsProposable : IsProposable fractions default_guard document "l" mended
unfolding replay
mended-IsProposable = record {
  canonical = canonical;
  known = refl;
  is_editable = refl;
  is_one_line = refl;
  not_blank = refl;
  within_budget = refl;
  hyphen_kept = refl;
}
