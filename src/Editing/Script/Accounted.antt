-- ===== src/Editing/Script/Accounted.antt =====
-- The lines that the result of `apply_edit_script` of core/editing.py names.
use corrigenda.Base.{
  ◌<◌, Bool, true, false, ◌||◌, ◌≡◌, refl, sym, ◌∙◌, ap, ◌⊎◌, inl, inr, Option, none, some, List,
  [], ◌∷◌, ◌++◌, String, Text, str_eq, eq_iff, length, arith, All, Bool-cases, Option-cases,
  if◌then◌else◌,
}
use corrigenda.Floats.{Floats}
use corrigenda.Policies.{GuardConfig}
use corrigenda.Editing.Ops.{EditOp, LinePrecondition, EditScript, Reason, EditRejection, EditResult}
use corrigenda.Editing.Accounts.{IsRefusalOf, apply_line_ops-IsAccounted}
use corrigenda.Editing.Script.{
  Groups, Target, op_line, op_page, in_scope, refuse_all, is_target, digest_agrees, expected_digest,
  speaks, add_op, group_ops, add_line, apply_known, apply_group, apply_groups, apply_edit_script,
}

-- The result names a line: with a text, or with a refusal.
unfoldable pub has_text : String → List (String × Text) → Bool
has_text i [] = false
has_text i ((j, t) ∷ rest) = str_eq i j || has_text i rest

unfoldable pub has_refusal : String → List EditRejection → Bool
has_refusal i [] = false
has_refusal i (r ∷ rest) = str_eq i r.line_id || has_refusal i rest

unfoldable pub answers : String → EditResult → Bool
answers i result = has_text i result.text_by_id || has_refusal i result.rejected

-- A line that has a group, with at least one operation.
unfoldable grouped : String → Groups → Bool
grouped i [] = false
grouped i ((j, []) ∷ gs) = grouped i gs
grouped i ((j, o ∷ ops) ∷ gs) = str_eq i j || grouped i gs

grouped-cons :
    (i j : String) (o : EditOp) (a ops : List EditOp) (gs : Groups)
    → grouped i ((j, a ++ o ∷ ops) ∷ gs) ≡ (str_eq i j || grouped i gs)
unfolding grouped
grouped-cons i j o [] ops gs = refl
grouped-cons i j o (p ∷ a) ops gs = refl

grouped-add_op_keeps :
    (i : String) (o : EditOp) (gs : Groups) → grouped i gs ≡ true → grouped i (add_op o gs) ≡ true
unfolding grouped add_op
grouped-add_op_keeps i o [] h = cc
grouped-add_op_keeps i o ((j, []) ∷ gs) h = ground (arith, grouped-add_op_keeps i o gs)
grouped-add_op_keeps i o ((j, p ∷ ops) ∷ gs) h = ground (arith, grouped-add_op_keeps i o gs)

grouped-add_op : (o : EditOp) (gs : Groups) → grouped (op_line o) (add_op o gs) ≡ true
unfolding add_op grouped
grouped-add_op o [] = ground (arith, eq_iff (op_line o) (op_line o))
grouped-add_op o ((j, []) ∷ gs) =
    ground (arith, grouped-add_op o gs, eq_iff j (op_line o), eq_iff (op_line o) j)
grouped-add_op o ((j, p ∷ ops) ∷ gs) =
    ground (arith, grouped-add_op o gs, eq_iff j (op_line o), eq_iff (op_line o) j)

has_refusal-append :
    (i : String) (a b : List EditRejection)
    → has_refusal i (a ++ b) ≡ (has_refusal i a || has_refusal i b)
unfolding has_refusal
has_refusal-append i [] b = refl
has_refusal-append i (r ∷ a) b = ground (arith, has_refusal-append i a b)

has_refusal-IsAccounted :
    (i : String) (refusals : List EditRejection)
    → 0 < length refusals
    → All (IsRefusalOf i) refusals
    → has_refusal i refusals ≡ true
unfolding has_refusal
has_refusal-IsAccounted i [] h n = absurd (omega arith)
has_refusal-IsAccounted i (r ∷ refusals) h (n, ns) = ground (arith, eq_iff i r.line_id)

-- What a line adds stays, and a line that comes to something is named by it.
answers-add_line_keeps :
    (i j : String) (outcome : Option Text × List EditRejection) (later : EditResult)
    → answers i later ≡ true
    → answers i (add_line j outcome later) ≡ true
unfolding answers has_text add_line
answers-add_line_keeps i j (none, refusals) later h =
    ground (arith, has_refusal-append i refusals later.rejected)
answers-add_line_keeps i j (some t, refusals) later h =
    ground (arith, has_refusal-append i refusals later.rejected)

answers-add_line :
    (i : String) (outcome : Option Text × List EditRejection) (later : EditResult)
    → (outcome.0 ≡ none → has_refusal i outcome.1 ≡ true)
    → answers i (add_line i outcome later) ≡ true
unfolding answers has_text add_line
answers-add_line i (none, refusals) later h =
    ground (arith, has_refusal-append i refusals later.rejected, h refl)
answers-add_line i (some t, refusals) later h = ground (arith, eq_iff i i)

has_refusal-refuse_all :
    (i : String) (reason : Reason) (o : EditOp) (ops : List EditOp)
    → has_refusal i (refuse_all i reason (o ∷ ops)) ≡ true
unfolding has_refusal refuse_all
has_refusal-refuse_all i reason o ops = ground (arith, eq_iff i i)

module _ (fl : Floats) (guard : GuardConfig fl) (target : Target) where
  has_refusal-apply_known :
      (pcs : List LinePrecondition) (i : String) (o : EditOp) (ops : List EditOp) (canonical : Text)
      → (apply_known fl guard target pcs i (o ∷ ops) canonical).0 ≡ none
      → has_refusal i (apply_known fl guard target pcs i (o ∷ ops) canonical).1 ≡ true
  unfolding apply_known
  has_refusal-apply_known pcs i o ops canonical h =
      let a = apply_line_ops-IsAccounted fl guard o ops i (target.role_of i) canonical in
      let fresh =
        digest_agrees (expected_digest target.page_id i pcs) (target.line_digest canonical) in
      elim (Bool-cases fresh) [
        | inl e ↦ rw e (has_refusal-IsAccounted i _ (a.answered (ground (arith, e))) a.named)
        | inr e ↦ rw e (has_refusal-refuse_all i Reason.precondition o ops)
      ]

  has_refusal-apply_group :
      (pcs : List LinePrecondition) (i : String) (o : EditOp) (ops : List EditOp)
      → (apply_group fl guard target pcs i (o ∷ ops)).0 ≡ none
      → has_refusal i (apply_group fl guard target pcs i (o ∷ ops)).1 ≡ true
  unfolding apply_group
  has_refusal-apply_group pcs i o ops h = elim (Option-cases (target.canonical_by_id i)) [
    | inl e ↦ ground (arith, e, has_refusal-refuse_all i Reason.unknown_line o ops)
    | inr (c, e) ↦ elim (Bool-cases (is_target target.chunk_line_ids i)) [
      | inl t ↦ ground (arith, e, t, has_refusal-apply_known pcs i o ops c)
      | inr t ↦ ground (arith, e, t, has_refusal-refuse_all i Reason.context_line o ops)
    ]
  ]

  answers-apply_groups :
      (pcs : List LinePrecondition) (i : String) (gs : Groups)
      → grouped i gs ≡ true
      → answers i (apply_groups fl guard target pcs gs) ≡ true
  unfolding grouped apply_groups
  answers-apply_groups pcs i [] h = cc
  answers-apply_groups pcs i ((j, []) ∷ gs) h =
      answers-add_line_keeps i j _ _ (answers-apply_groups pcs i gs h)
  answers-apply_groups pcs i ((j, o ∷ ops) ∷ gs) h = elim (Bool-cases (str_eq i j)) [
    | inl e ↦
        let same : i ≡ j = ground (arith, eq_iff i j) in
        rw same (answers-add_line j _ _ (has_refusal-apply_group pcs j o ops))
    | inr e ↦ answers-add_line_keeps i j _ _ (answers-apply_groups pcs i gs (ground arith))
  ]

  -- The line of an operation in scope is answered.
  abbrev pub IsAnswered : EditResult → EditOp → Type 0
  IsAnswered result o =
      in_scope target.page_id (op_page o) ≡ true → answers (op_line o) result ≡ true

  grouped-group_ops_keeps :
      (i : String) (acc : Groups) (ops : List EditOp)
      → grouped i acc ≡ true
      → grouped i (group_ops target.page_id acc ops) ≡ true
  unfolding group_ops
  grouped-group_ops_keeps i acc [] h = h
  grouped-group_ops_keeps i acc (o ∷ ops) h =
      grouped-group_ops_keeps i (if in_scope target.page_id (op_page o) then add_op o acc else acc)
        ops
        (elim (Bool-cases (in_scope target.page_id (op_page o))) [
          | inl e ↦ rw e (grouped-add_op_keeps i o acc h)
          | inr e ↦ rw e h
        ])

  IsAnswered-groups :
      (pcs : List LinePrecondition) (acc : Groups) (ops : List EditOp) (result : EditResult)
      → apply_groups fl guard target pcs (group_ops target.page_id acc ops) ≡ result
      → All (IsAnswered result) ops
  unfolding group_ops
  IsAnswered-groups pcs acc [] result h = tt
  IsAnswered-groups pcs acc (o ∷ ops) result h = (
    (λ s.
        ap (answers (op_line o)) (sym h)
        ∙ answers-apply_groups pcs (op_line o) _
            (grouped-group_ops_keeps (op_line o) _ ops (rw s (grouped-add_op o acc)))),
    IsAnswered-groups pcs (if in_scope target.page_id (op_page o) then add_op o acc else acc) ops
        result h,
  )

  -- A script in a version that is spoken, or with no version, gets a result, in which the line of
  -- every operation in scope has a text or a refusal; a script in another version gets none.
  pub apply_edit_script-IsAnswered :
      (script : EditScript)
      → ((speaks script.protocol_version ≡ true)
          × ((result : EditResult) × (apply_edit_script fl guard target script ≡ some result)
              × All (IsAnswered result) script.ops))
        ⊎ ((speaks script.protocol_version ≡ false)
            × (apply_edit_script fl guard target script ≡ none))
  unfolding apply_edit_script
  apply_edit_script-IsAnswered script = elim (Bool-cases (speaks script.protocol_version)) [
    | inl e ↦
        inl (e, (_, ground (arith, e), IsAnswered-groups script.preconditions [] script.ops _ refl))
    | inr e ↦ inr (e, ground (arith, e))
  ]
