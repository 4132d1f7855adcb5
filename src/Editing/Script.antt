-- ===== src/Editing/Script.antt =====
-- `apply_edit_script` and `replace_line_script` of core/editing.py: the operations grouped by line,
-- the checks that come before a line's own (E1, the source digest) and the result. The digest of a
-- text, a SHA-256, is a parameter, as are the document's dictionaries.
pub mod Groups
pub mod Published
pub mod Accounted
pub mod RoundTrip
use corrigenda.Base.{
  Bool, true, false, ◌&&◌, ◌||◌, not, Option, none, some, List, [], ◌∷◌, ◌++◌, String, Text, str_eq,
  is_in, map, if◌then◌else◌,
}
use corrigenda.Floats.{Floats}
use corrigenda.Manifest.{HyphenRole}
use corrigenda.Policies.{GuardConfig}
use corrigenda.Editing.Ops.{
  LineOp, SpanOp, EditOp, whole, span, OpKind, LinePrecondition, EditScript, Reason, EditRejection,
  EditResult,
}
use corrigenda.Editing.Line.{refuse, apply_line_ops}

abbrev pub edit_protocol_version : String
edit_protocol_version = "1"

unfoldable pub op_line : EditOp → String
op_line (whole o) = o.line_id
op_line (span o) = o.line_id

unfoldable pub op_page : EditOp → Option String
op_page (whole o) = o.page_id
op_page (span o) = o.page_id

unfoldable pub op_kind : EditOp → OpKind
op_kind (whole o) = OpKind.replace_line
op_kind (span o) = OpKind.replace_span

-- A stamp of another page puts an operation, or a precondition, out of scope.
unfoldable pub in_scope : Option String → Option String → Bool
in_scope none stamp = true
in_scope (some page) none = true
in_scope (some page) (some stamp) = str_eq stamp page

abbrev pub Groups : Type 0
Groups = List (String × List EditOp)

-- `ops_by_line.setdefault(op.line_id, []).append(op)`
unfoldable pub add_op : EditOp → Groups → Groups
unfolding op_line
add_op o [] = (op_line o, o ∷ []) ∷ []
add_op o ((i, ops) ∷ rest) =
    if str_eq i (op_line o) then (i, ops ++ o ∷ []) ∷ rest else (i, ops) ∷ add_op o rest

unfoldable pub group_ops : Option String → Groups → List EditOp → Groups
unfolding add_op op_page in_scope
group_ops page acc [] = acc
group_ops page acc (o ∷ ops) =
    group_ops page (if in_scope page (op_page o) then add_op o acc else acc) ops

-- The digest recorded for a line: the last precondition in scope, as a dictionary keeps it.
unfoldable pub expected_digest : Option String → String → List LinePrecondition → Option String
unfolding in_scope
expected_digest page i [] = none
expected_digest page i (pc ∷ rest) = elim (expected_digest page i rest) [
  | some d ↦ some d
  | none ↦ if str_eq pc.line_id i && in_scope page pc.page_id then some pc.digest else none
]

unfoldable pub refuse_all : String → Reason → List EditOp → List EditRejection
unfolding refuse op_kind
refuse_all i reason [] = []
refuse_all i reason (o ∷ ops) = refuse i (op_kind o) reason ∷ refuse_all i reason ops

unfoldable pub is_target : Option (List String) → String → Bool
unfolding is_in
is_target none i = true
is_target (some ids) i = is_in i ids

unfoldable pub digest_agrees : Option String → String → Bool
digest_agrees none actual = true
digest_agrees (some expected) actual = str_eq actual expected

-- A line's share of the result.
unfoldable pub add_line : String → Option Text × List EditRejection → EditResult → EditResult
add_line i (none, refusals) later = record later { rejected = refusals ++ later.rejected }
add_line i (some text, refusals) later = record {
  text_by_id = (i, text) ∷ later.text_by_id;
  rejected = refusals ++ later.rejected;
}

-- What a document and a caller bring: the canonical texts, the lines that may be edited, the hyphen
-- roles, the page that the replay is scoped to, and the digest of a text.
pub record Target : Type 0 where
  pub canonical_by_id : String → Option Text
  pub chunk_line_ids : Option (List String)
  pub role_of : String → HyphenRole
  pub page_id : Option String
  pub line_digest : Text → String

-- `none` is the `ProposalValidationError` for a version that this library does not speak.
unfoldable pub speaks : Option String → Bool
speaks none = true
speaks (some v) = str_eq v edit_protocol_version

module _ (fl : Floats) (guard : GuardConfig fl) (target : Target) where
  -- A line that is known: its digest, then its operations.
  unfoldable pub apply_known :
      List LinePrecondition → String → List EditOp → Text → Option Text × List EditRejection
  apply_known preconditions i ops canonical =
      if digest_agrees (expected_digest target.page_id i preconditions)
        (target.line_digest canonical)
      then apply_line_ops fl guard i ops canonical (target.role_of i)
      else (none, refuse_all i Reason.precondition ops)

  -- `_e1_refusal` first.
  unfoldable pub apply_group :
      List LinePrecondition → String → List EditOp → Option Text × List EditRejection
  apply_group preconditions i ops = elim (target.canonical_by_id i) [
    | none ↦ (none, refuse_all i Reason.unknown_line ops)
    | some canonical ↦
        if is_target target.chunk_line_ids i
        then apply_known preconditions i ops canonical
        else (none, refuse_all i Reason.context_line ops)
  ]

  unfoldable pub apply_groups : List LinePrecondition → Groups → EditResult
  unfolding add_line
  apply_groups preconditions [] = record { text_by_id = []; rejected = [] }
  apply_groups preconditions ((i, ops) ∷ rest) =
      add_line i (apply_group preconditions i ops) (apply_groups preconditions rest)

  unfoldable pub apply_edit_script : EditScript → Option EditResult
  unfolding speaks apply_groups
  apply_edit_script script =
      if speaks script.protocol_version
      then some (apply_groups script.preconditions (group_ops target.page_id [] script.ops))
      else none

unfoldable pub replace_line_ops : List (String × Text) → List EditOp
replace_line_ops [] = []
replace_line_ops ((i, t) ∷ rest) =
    whole (record { line_id = i; text = t; page_id = none }) ∷ replace_line_ops rest

unfoldable pub replace_line_script : List (String × Text) → EditScript
unfolding replace_line_ops
replace_line_script texts = record {
  ops = replace_line_ops texts;
  protocol_version = none;
  preconditions = [];
}
