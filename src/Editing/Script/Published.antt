-- ===== src/Editing/Script/Published.antt =====
-- What the result of `apply_edit_script` of core/editing.py holds.
use corrigenda.Base.{
  true, ◌≡◌, refl, sym, ◌∙◌, ap, inl, inr, Option, none, some, List, [], ◌∷◌, String, Text, arith,
  All, Option-cases,
}
use mathlib.Core.Path.{subst}
use corrigenda.Floats.{Floats}
use corrigenda.Policies.{GuardConfig}
use corrigenda.Editing.Ops.{EditScript, EditRejection, EditResult}
use corrigenda.Editing.Verdicts.{Kept, apply_line_ops-Kept}
use corrigenda.Editing.Script.{
  Groups, Target, expected_digest, is_target, digest_agrees, group_ops, add_line, apply_known,
  apply_group, apply_groups, apply_edit_script,
}
use corrigenda.Editing.Script.Groups.{
  ops_on, group_of, IsFound, all-IsFound, group_of-all_groups, Distinct-group_ops,
}

module _ (fl : Floats) (guard : GuardConfig fl) (target : Target) where
  -- A text of the result: its line is known and may be edited, its canonical text has the digest
  -- that the script recorded, and the text is one that the operations in scope on the line give.
  pub record IsPublished (script : EditScript) (entry : String × Text) : Type 0 where
    pub canonical : Text
    pub known : target.canonical_by_id entry.0 ≡ some canonical
    pub is_editable : is_target target.chunk_line_ids entry.0 ≡ true
    pub fresh :
        digest_agrees
          (expected_digest target.page_id entry.0 script.preconditions)
          (target.line_digest canonical)
        ≡ true
    pub kept :
        Kept fl guard
          (ops_on target.page_id entry.0 script.ops)
          (target.role_of entry.0)
          canonical
          entry.1

  apply_group-IsPublished :
      (script : EditScript) (i : String) (text : Text)
      → (apply_group fl guard target script.preconditions i (ops_on target.page_id i script.ops)).0
        ≡ some text
      → IsPublished script (i, text)
  unfolding apply_group apply_known
  apply_group-IsPublished script i text h = elim (Option-cases (target.canonical_by_id i)) [
    | inl e ↦ absurd (ground (arith, e))
    | inr (c, e) ↦ record {
      canonical = c;
      known = e;
      is_editable = ground (arith, e);
      fresh = ground (arith, e);
      kept = apply_line_ops-Kept fl guard _ i (target.role_of i) c text (ground (arith, e));
    }
  ]

  add_line-IsPublished :
      (script : EditScript) (i : String) (outcome : Option Text × List EditRejection)
      (later : EditResult)
      → ((text : Text) → outcome.0 ≡ some text → IsPublished script (i, text))
      → All (IsPublished script) later.text_by_id
      → All (IsPublished script) (add_line i outcome later).text_by_id
  unfolding add_line
  add_line-IsPublished script i (none, refusals) later p ps = ps
  add_line-IsPublished script i (some text, refusals) later p ps = (p text refl, ps)

  apply_groups-IsPublished :
      (script : EditScript) (gs all : Groups)
      → ((i : String) → group_of i all ≡ ops_on target.page_id i script.ops)
      → All (IsFound all) gs
      → All (IsPublished script) (apply_groups fl guard target script.preconditions gs).text_by_id
  unfolding apply_groups
  apply_groups-IsPublished script [] all g found = tt
  apply_groups-IsPublished script ((i, ops) ∷ gs) all g (f, found) =
      add_line-IsPublished script i _ _
        (λ text h. apply_group-IsPublished script i text (
          ap (λ os. (apply_group fl guard target script.preconditions i os).0) (sym (g i) ∙ f) ∙ h))
        (apply_groups-IsPublished script gs all g found)

  -- Every text in the result of a script belongs to a line that is known, may be edited and has the
  -- digest the script recorded, if it recorded one; and the text is one that the line's own
  -- operations give, those of the script in scope on it, in order: not blank, its break mark kept,
  -- and either a sole whole-line proposal or the canonical text with spans replaced. Each of these is
  -- the range that the anchor of one of these operations names, with the text of that operation;
  -- they lie apart, and an operation that asks for such a span is left out only for one among them
  -- that begins no later and overlaps it.
  pub apply_edit_script-IsPublished :
      (script : EditScript) (result : EditResult)
      → apply_edit_script fl guard target script ≡ some result
      → All (IsPublished script) result.text_by_id
  unfolding apply_edit_script
  apply_edit_script-IsPublished script result h =
      let gs = group_ops target.page_id [] script.ops in
      let p : All (IsPublished script)
          (apply_groups fl guard target script.preconditions gs).text_by_id =
        apply_groups-IsPublished script gs gs (group_of-all_groups target.page_id script.ops)
          (all-IsFound gs (Distinct-group_ops target.page_id [] script.ops tt)) in
      let same : apply_groups fl guard target script.preconditions gs ≡ result =
        ground (arith, h) in
      subst (λ r. All (IsPublished script) r.text_by_id) same p
