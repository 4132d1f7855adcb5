-- ===== src/Decisions.antt =====
-- core/decisions.py: the terminal decisions of a run, materialised from its lines.
use corrigenda.Base.{
  ℕ, ◌+◌, Bool, true, false, Option, none, some, List, [], ◌∷◌, ◌++◌, Text, if◌then◌else◌,
}
use corrigenda.Manifest.{LineManifest, LineRef, LineStatus, PageManifest, line_ref}
use corrigenda.Decide.{LineTrace, Traces, get_trace}
use corrigenda.Hyphenation.{given_or}
use corrigenda.Reconcile.{is_fallback}

pub record LineDecision : Type 0 where
  pub ref : LineRef
  pub source_text : Text
  pub final_text : Text
  pub status : LineStatus
  pub fallback_reason : Option Text

unfoldable pub is_pending : LineStatus → Bool
is_pending LineStatus.pending = true
is_pending LineStatus.corrected = false
is_pending LineStatus.fallback = false
is_pending LineStatus.failed = false

-- `undecided`
unfoldable pub undecided_lines : List LineManifest → List LineRef
unfolding is_pending line_ref
undecided_lines [] = []
undecided_lines (lm ∷ lines) =
    let rest = undecided_lines lines in if is_pending lm.status then line_ref lm ∷ rest else rest

unfoldable pub undecided : List PageManifest → List LineRef
unfolding undecided_lines
undecided [] = []
undecided (p ∷ pages) = undecided_lines p.lines ++ undecided pages

unfoldable pub traced_reason : Option LineTrace → Option Text
traced_reason none = none
traced_reason (some t) = t.fallback_reason

unfoldable pub line_decision : Traces → LineManifest → LineDecision
unfolding line_ref given_or is_fallback traced_reason get_trace
line_decision traces lm = record {
  ref = line_ref lm;
  source_text = lm.ocr_text;
  final_text = given_or lm.corrected_text lm.ocr_text;
  status = lm.status;
  fallback_reason =
      if is_fallback lm.status then traced_reason (get_trace (line_ref lm) traces) else none;
}

unfoldable pub line_decisions : Traces → List LineManifest → List LineDecision
unfolding line_decision
line_decisions traces [] = []
line_decisions traces (lm ∷ lines) = line_decision traces lm ∷ line_decisions traces lines

unfoldable pub page_decisions : Traces → List PageManifest → List LineDecision
unfolding line_decisions
page_decisions traces [] = []
page_decisions traces (p ∷ pages) = line_decisions traces p.lines ++ page_decisions traces pages

-- `none` is the RuntimeError of a run that left lines with no terminal decision.
unfoldable pub derive_decision_set : List PageManifest → Traces → Option (List LineDecision)
unfolding undecided page_decisions
derive_decision_set pages traces = elim (undecided pages) [
  | [] ↦ some (page_decisions traces pages)
  | r ∷ rs ↦ none
]

-- `DecisionSet.fallback_lines`
unfoldable pub fallback_lines : List LineDecision → ℕ
unfolding is_fallback
fallback_lines [] = 0
fallback_lines (d ∷ ds) = (if is_fallback d.status then 1 else 0) + fallback_lines ds
