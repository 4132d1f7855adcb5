-- ===== src/Decide.antt =====
-- core/decide.py and `_set_trace` of core/traces.py: the three verbs that write a line's decision,
-- with the trace that goes with it. The source mutates the line and the trace; the model returns
-- them. Of `LineTrace` the fields are modelled that these verbs write.
pub mod Reasons
use corrigenda.Base.{
  Bool, true, false, Option, none, some, List, [], ◌∷◌, Text, is_empty, if◌then◌else◌,
}
use corrigenda.Manifest.{LineManifest, LineRef, LineStatus, line_ref, ref_eq}

pub record LineTrace : Type 0 where
  pub projected_text : Option Text
  pub validation_status : Option LineStatus
  pub fallback_reason : Option Text

abbrev pub Traces : Type 0
Traces = List (LineRef × LineTrace)

unfoldable pub get_trace : LineRef → Traces → Option LineTrace
get_trace r [] = none
get_trace r ((k, t) ∷ ts) = if ref_eq k r then some t else get_trace r ts

-- Setting attributes on the trace of a line; a line with no trace has none made.
unfoldable pub update_trace : (LineTrace → LineTrace) → LineRef → Traces → Traces
update_trace f r [] = []
update_trace f r ((k, t) ∷ ts) =
    let rest = update_trace f r ts in if ref_eq k r then (k, f t) ∷ ts else (k, t) ∷ rest

-- `traces` is `None` where the host did not ask for traces.
unfoldable pub set_trace : (LineTrace → LineTrace) → LineManifest → Option Traces → Option Traces
unfolding update_trace line_ref
set_trace f lm none = none
set_trace f lm (some ts) = some (update_trace f (line_ref lm) ts)

-- What a decision writes on the trace.
unfoldable pub write_decision : Text → LineStatus → LineTrace → LineTrace
write_decision text status t = record t {
  projected_text = some text;
  validation_status = some status;
}

-- `if not trace.fallback_reason: trace.fallback_reason = reason`
unfoldable pub first_reason : Text → Option Text → Option Text
unfolding is_empty
first_reason reason none = some reason
first_reason reason (some r) = if is_empty r then some reason else some r

unfoldable pub note_reason : Text → LineTrace → LineTrace
unfolding first_reason
note_reason reason t = record t { fallback_reason = first_reason reason t.fallback_reason }

unfoldable pub accept : LineManifest → Text → Option Traces → LineManifest × Option Traces
unfolding set_trace write_decision
accept line text traces = (
  record line { corrected_text = some text; status = LineStatus.corrected },
  set_trace (write_decision text LineStatus.corrected) line traces,
)

unfoldable pub fall_back : LineManifest → Text → Option Traces → LineManifest × Option Traces
unfolding set_trace write_decision note_reason
fall_back line reason traces = (
  record line { corrected_text = some line.ocr_text; status = LineStatus.fallback },
  set_trace (note_reason reason) line
      (set_trace (write_decision line.ocr_text LineStatus.fallback) line traces),
)

-- Respells a decided text; neither the status nor the trace changes.
unfoldable pub renormalise : LineManifest → Text → LineManifest
renormalise line text = record line { corrected_text = some text }
