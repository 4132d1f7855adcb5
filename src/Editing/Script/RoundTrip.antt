-- ===== src/Editing/Script/RoundTrip.antt =====
-- `replace_line_script` of core/editing.py, applied.
use corrigenda.Base.{
  ◌≡◌, true, false, refl, ◌∙◌, inl, inr, Option, none, some, List, [], ◌∷◌, String, Text, str_eq,
  eq_iff, lookup, is_blank, ltb, arith, Bool-cases,
}
use corrigenda.Floats.{Floats}
use corrigenda.Policies.{GuardConfig}
use corrigenda.Editing.Ops.{EditOp, whole, LinePrecondition, EditRejection, EditResult}
use corrigenda.Editing.Drift.{has_line_separator, changed_chars, e5_hyphen_ok}
use corrigenda.Editing.Line.{
  line_ops, span_ops, whole_line_drift_refusal, checked_unless, whole_line_verdict, line_result,
  apply_line_ops,
}
use corrigenda.Editing.Script.{
  Groups, Target, op_line, op_page, in_scope, expected_digest, is_target, digest_agrees, group_ops,
  add_line, apply_known, apply_group, apply_groups, apply_edit_script, replace_line_ops,
  replace_line_script,
}
use corrigenda.Editing.Script.Groups.{ops_on, group_of, group_of-all_groups}

abbrev replacement : String → Text → EditOp
replacement i t = whole (record { line_id = i; text = t; page_id = none })

-- The keys of a dictionary come once each.
abbrev pub IsDict : List (String × Text) → Type 0
IsDict [] = Unit
IsDict ((i, t) ∷ rest) = (lookup i rest ≡ none) × IsDict rest

ops_on-replace_none :
    (page : Option String) (i : String) (texts : List (String × Text))
    → lookup i texts ≡ none
    → ops_on page i (replace_line_ops texts) ≡ []
unfolding ops_on replace_line_ops lookup in_scope op_line op_page
ops_on-replace_none page i [] h = refl
ops_on-replace_none none i ((j, t) ∷ texts) h =
    ground (arith, ops_on-replace_none none i texts, eq_iff i j, eq_iff j i)
ops_on-replace_none (some p) i ((j, t) ∷ texts) h =
    ground (arith, ops_on-replace_none (some p) i texts, eq_iff i j, eq_iff j i)

ops_on-replace :
    (page : Option String) (i : String) (t : Text) (texts : List (String × Text))
    → IsDict texts
    → lookup i texts ≡ some t
    → ops_on page i (replace_line_ops texts) ≡ replacement i t ∷ []
unfolding ops_on replace_line_ops lookup in_scope op_line op_page
ops_on-replace page i t [] d h = cc
ops_on-replace none i t ((j, u) ∷ texts) (n, d) h = elim (Bool-cases (str_eq j i)) [
  | inl e ↦
      let same : j ≡ i = ground (arith, eq_iff j i, e) in
      ground (arith, e, same, ops_on-replace_none none i texts, eq_iff i j)
  | inr e ↦ ground (arith, e, ops_on-replace none i t texts d, eq_iff i j, eq_iff j i)
]
ops_on-replace (some p) i t ((j, u) ∷ texts) (n, d) h = elim (Bool-cases (str_eq j i)) [
  | inl e ↦
      let same : j ≡ i = ground (arith, eq_iff j i, e) in
      ground (arith, e, same, ops_on-replace_none (some p) i texts, eq_iff i j)
  | inr e ↦ ground (arith, e, ops_on-replace (some p) i t texts d, eq_iff i j, eq_iff j i)
]

lookup-add_line :
    (i : String) (t : Text) (outcome : Option Text × List EditRejection) (later : EditResult)
    → outcome.0 ≡ some t
    → lookup i (add_line i outcome later).text_by_id ≡ some t
unfolding add_line lookup
lookup-add_line i t (none, refusals) later h = cc
lookup-add_line i t (some u, refusals) later h = ground (arith, eq_iff i i)

lookup-add_line_other :
    (i j : String) (outcome : Option Text × List EditRejection) (later : EditResult)
    → str_eq j i ≡ false
    → lookup i (add_line j outcome later).text_by_id ≡ lookup i later.text_by_id
unfolding add_line lookup
lookup-add_line_other i j (none, refusals) later h = refl
lookup-add_line_other i j (some u, refusals) later h = ground arith

module _ (fl : Floats) (guard : GuardConfig fl) (target : Target) where
  lookup-apply_groups :
      (pcs : List LinePrecondition) (i : String) (t : Text) (o : EditOp) (ops : List EditOp)
      (gs : Groups)
      → group_of i gs ≡ o ∷ ops
      → (apply_group fl guard target pcs i (o ∷ ops)).0 ≡ some t
      → lookup i (apply_groups fl guard target pcs gs).text_by_id ≡ some t
  unfolding apply_groups group_of
  lookup-apply_groups pcs i t o ops [] g h = cc
  lookup-apply_groups pcs i t o ops ((j, os) ∷ gs) g h = elim (Bool-cases (str_eq j i)) [
    | inl e ↦
        let same : i ≡ j = ground (arith, eq_iff j i, e) in
        let here : os ≡ o ∷ ops = ground (arith, e) in rw (here, ← same) (lookup-add_line i t _ _ h)
    | inr e ↦
        lookup-add_line_other i j _ _ e ∙ lookup-apply_groups pcs i t o ops gs (ground (arith, e)) h
  ]

  -- An entry that the guards have nothing against: its line is known and may be edited, it is one
  -- line and not blank, it changes no more characters than the budget, and keeps the break mark.
  pub record IsProposable (i : String) (t : Text) : Type 0 where
    pub canonical : Text
    pub known : target.canonical_by_id i ≡ some canonical
    pub is_editable : is_target target.chunk_line_ids i ≡ true
    pub is_one_line : has_line_separator t ≡ false
    pub not_blank : is_blank t ≡ false
    pub within_budget : ltb guard.edit_line_max_changed_chars (changed_chars canonical t) ≡ false
    pub hyphen_kept : e5_hyphen_ok (target.role_of i) t canonical ≡ true

  apply_group-replacement :
      (i : String) (t : Text)
      → IsProposable i t
      → (apply_group fl guard target [] i (replacement i t ∷ [])).0 ≡ some t
  unfolding apply_group apply_known expected_digest digest_agrees apply_line_ops line_ops span_ops
      whole_line_verdict whole_line_drift_refusal checked_unless line_result
  apply_group-replacement i t p =
      ground
        (arith, p.known, p.is_editable, p.is_one_line, p.not_blank, p.within_budget, p.hyphen_kept)

  -- A dictionary of texts, made into a script of whole-line proposals and applied, gives a result;
  -- and each entry that the guards have nothing against comes back in it as it was.
  pub apply_edit_script-replace_line_script :
      (texts : List (String × Text))
      → IsDict texts
      → (result : EditResult) × (apply_edit_script fl guard target (replace_line_script texts)
          ≡ some result)
        × ((i : String) (t : Text)
            → lookup i texts ≡ some t
            → IsProposable i t
            → lookup i result.text_by_id ≡ some t)
  unfolding apply_edit_script replace_line_script
  apply_edit_script-replace_line_script texts d = (
    apply_groups fl guard target [] (group_ops target.page_id [] (replace_line_ops texts)),
    refl,
    λ i t h p.
        lookup-apply_groups [] i t (replacement i t) [] _
          (group_of-all_groups target.page_id (replace_line_ops texts) i
            ∙ ops_on-replace target.page_id i t texts d h)
          (apply_group-replacement i t p),
  )
