-- ===== src/Editing/Script/Groups.antt =====
-- The grouping of a script's operations by line in core/editing.py.
use corrigenda.Base.{
  Bool, true, false, ◌&&◌, ◌||◌, ◌≡◌, refl, sym, ◌∙◌, ap, inl, inr, Option, List, [], ◌∷◌, ◌++◌,
  String, str_eq, eq_iff, append-nil, append_assoc, arith, All, Bool-cases, if◌then◌else◌,
}
use corrigenda.Editing.Ops.{EditOp}
use corrigenda.Editing.Script.{Groups, op_line, op_page, in_scope, add_op, group_ops}

-- The operations in scope on one line, in the order of the script: the specification of a group.
unfoldable pub ops_on : Option String → String → List EditOp → List EditOp
ops_on page i [] = []
ops_on page i (o ∷ ops) =
    let rest = ops_on page i ops in
    if in_scope page (op_page o) && str_eq i (op_line o) then o ∷ rest else rest

ops_on-append :
    (page : Option String) (i : String) (a b : List EditOp)
    → ops_on page i (a ++ b) ≡ ops_on page i a ++ ops_on page i b
unfolding ops_on
ops_on-append page i [] b = refl
ops_on-append page i (o ∷ a) b = ground (arith, ops_on-append page i a b)

-- The group of a line, empty if it has none.
unfoldable pub group_of : String → Groups → List EditOp
group_of i [] = []
group_of i ((j, ops) ∷ gs) = if str_eq j i then ops else group_of i gs

abbrev pub has_key : String → Groups → Bool
has_key i [] = false
has_key i ((j, ops) ∷ gs) = str_eq j i || has_key i gs

abbrev pub Distinct : Groups → Type 0
Distinct [] = Unit
Distinct ((j, ops) ∷ gs) = (has_key j gs ≡ false) × Distinct gs

group_of-add_op :
    (o : EditOp) (i : String) (gs : Groups)
    → group_of i (add_op o gs)
      ≡ (if str_eq (op_line o) i then group_of i gs ++ o ∷ [] else group_of i gs)
unfolding add_op group_of
group_of-add_op o i [] = refl
group_of-add_op o i ((j, ops) ∷ gs) =
    ground (arith, group_of-add_op o i gs, eq_iff j (op_line o), eq_iff j i, eq_iff (op_line o) i)

has_key-add_op :
    (o : EditOp) (i : String) (gs : Groups)
    → has_key i (add_op o gs) ≡ (str_eq (op_line o) i || has_key i gs)
unfolding add_op
has_key-add_op o i [] = refl
has_key-add_op o i ((j, ops) ∷ gs) =
    ground (arith, has_key-add_op o i gs, eq_iff j (op_line o), eq_iff j i, eq_iff (op_line o) i)

Distinct-add_op : (o : EditOp) (gs : Groups) → Distinct gs → Distinct (add_op o gs)
unfolding add_op
Distinct-add_op o [] d = (refl, tt)
Distinct-add_op o ((j, ops) ∷ gs) (d, ds) = elim (Bool-cases (str_eq j (op_line o))) [
  | inl e ↦ rw e (d, ds)
  | inr e ↦ rw e (
    ground (arith, has_key-add_op o j gs, eq_iff j (op_line o), eq_iff (op_line o) j),
    Distinct-add_op o gs ds,
  )
]

grow-ops_on :
    (page : Option String) (i : String) (acc : Groups) (done : List EditOp) (o : EditOp) (b : Bool)
    → in_scope page (op_page o) ≡ b
    → group_of i acc ≡ ops_on page i done
    → group_of i (if b then add_op o acc else acc) ≡ ops_on page i (done ++ o ∷ [])
unfolding ops_on
grow-ops_on page i acc done o false e h =
    ground (arith, ops_on-append page i done (o ∷ []), append-nil (ops_on page i done))
grow-ops_on page i acc done o true e h = ground (
  arith,
  ops_on-append page i done (o ∷ []),
  append-nil (ops_on page i done),
  group_of-add_op o i acc,
  eq_iff (op_line o) i,
  eq_iff i (op_line o),
)

module _ (page : Option String) where
  group_of-group_ops :
      (i : String) (acc : Groups) (done ops : List EditOp)
      → group_of i acc ≡ ops_on page i done
      → group_of i (group_ops page acc ops) ≡ ops_on page i (done ++ ops)
  unfolding group_ops
  group_of-group_ops i acc done [] h = h ∙ ap (ops_on page i) (sym (append-nil done))
  group_of-group_ops i acc done (o ∷ ops) h =
      group_of-group_ops i (if in_scope page (op_page o) then add_op o acc else acc)
        (done ++ o ∷ []) ops (grow-ops_on page i acc done o (in_scope page (op_page o)) refl h)
      ∙ ap (ops_on page i) (append_assoc done (o ∷ []) ops)

  -- The group of a line is its operations in scope, in the order of the script.
  pub group_of-all_groups :
      (ops : List EditOp) (i : String) → group_of i (group_ops page [] ops) ≡ ops_on page i ops
  unfolding group_of ops_on
  group_of-all_groups ops i = group_of-group_ops i [] [] ops refl

  pub Distinct-group_ops :
      (acc : Groups) (ops : List EditOp) → Distinct acc → Distinct (group_ops page acc ops)
  unfolding group_ops
  Distinct-group_ops acc [] d = d
  Distinct-group_ops acc (o ∷ ops) d =
      Distinct-group_ops (if in_scope page (op_page o) then add_op o acc else acc) ops
        (grown (in_scope page (op_page o)))
    where
      grown : (b : Bool) → Distinct (if b then add_op o acc else acc)
      grown true = Distinct-add_op o acc d
      grown false = d

-- With keys apart, each entry is what its key looks up.
abbrev pub IsFound : Groups → String × List EditOp → Type 0
IsFound gs (i, ops) = group_of i gs ≡ ops

IsFound-cons :
    (j : String) (ops : List EditOp) (gs hs : Groups)
    → has_key j hs ≡ false
    → All (IsFound gs) hs
    → All (IsFound ((j, ops) ∷ gs)) hs
unfolding group_of
IsFound-cons j ops gs [] n h = tt
IsFound-cons j ops gs ((i, os) ∷ hs) n (h, rest) =
    (ground (arith, eq_iff j i, eq_iff i j), IsFound-cons j ops gs hs (ground arith) rest)

pub all-IsFound : (gs : Groups) → Distinct gs → All (IsFound gs) gs
unfolding group_of
all-IsFound [] d = tt
all-IsFound ((j, ops) ∷ gs) (d, ds) =
    (ground (arith, eq_iff j j), IsFound-cons j ops gs gs d (all-IsFound gs ds))
