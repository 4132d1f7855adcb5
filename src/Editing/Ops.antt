-- ===== src/Editing/Ops.antt =====
-- The types of core/editing.py: anchors, operations, scripts, refusals. `producer_confidence` and
-- the refusals' `detail`, a message, are left out.
use corrigenda.Base.{ℕ, ℤ, Option, List, String, Text}

-- `occurrence` is `none` where the match must be unique.
pub data EditAnchor : Type 0 where
  range : (start end : ℤ) → EditAnchor
  match : (text : Text) (occurrence : Option ℤ) → EditAnchor

-- A `RangeAnchor` that has been checked against a text: offsets from its start.
pub record Range : Type 0 where
  pub start : ℕ
  pub end : ℕ

pub data OpKind : Type 0 where
  replace_line replace_span : OpKind

pub record LineOp : Type 0 where
  pub line_id : String
  pub text : Text
  pub page_id : Option String

pub record SpanOp : Type 0 where
  pub line_id : String
  pub anchor : EditAnchor
  pub text : Text
  pub page_id : Option String

pub data EditOp : Type 0 where
  whole : LineOp → EditOp
  span : SpanOp → EditOp

pub record LinePrecondition : Type 0 where
  pub line_id : String
  pub page_id : Option String
  pub digest : String

pub record EditScript : Type 0 where
  pub ops : List EditOp
  pub protocol_version : Option String
  pub preconditions : List LinePrecondition

-- The refusal codes `R_…`.
pub data Reason : Type 0 where
  unknown_line context_line conflict empty newline overlap drift_ratio drift_budget : Reason
  hyphen boundary_word anchor_not_found anchor_ambiguous anchor_range anchor_empty : Reason
  precondition : Reason

pub record EditRejection : Type 0 where
  pub line_id : String
  pub op : OpKind
  pub reason : Reason

pub record EditResult : Type 0 where
  pub text_by_id : List (String × Text)
  pub rejected : List EditRejection

-- What a check comes to: a value, or why there is none.
pub data Checked {ℓ} (A : Type ℓ) : Type ℓ where
  accepted : A → Checked A
  refused : Reason → Checked A
