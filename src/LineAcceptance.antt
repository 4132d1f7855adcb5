-- ===== src/LineAcceptance.antt =====
-- `_apply_line_acceptance` of core/acceptance.py, with `_lookup_ref` of core/reconcile.py. The
-- lines of a chunk are lines of the page that the source mutates where they stand, so that a
-- decision on one is seen by the next: the model passes the page's lines on and names a line of the
-- chunk by its identifier. The metrics that `check_line` leaves on the trace are not modelled.
pub mod Outcomes
pub mod Stores
pub mod Decided
use corrigenda.Base.{
  Bool, true, false, not, ◌&&◌, ◌||◌, Option, none, some, List, [], ◌∷◌, String, str_eq, Text,
  is_empty, codes, lookup, if◌then◌else◌,
}
use corrigenda.Floats.{Floats}
use corrigenda.Policies.{GuardConfig}
use corrigenda.Manifest.{LineManifest, LineRef, LineStatus, truthy, wants_forward}
use corrigenda.Marks.{ends_with_break_mark}
use corrigenda.Pairing.{pair_ref, forward_ref}
use corrigenda.Reconcile.{is_fallback}
use corrigenda.Decide.{Traces, accept, fall_back}
use corrigenda.Guards.{AcceptanceResult, check_line}

-- The page's lines by identifier, and the mutation of one of them.
unfoldable pub line_at : String → List LineManifest → Option LineManifest
line_at i [] = none
line_at i (lm ∷ lines) = if str_eq lm.line_id i then some lm else line_at i lines

unfoldable pub put_at : String → LineManifest → List LineManifest → List LineManifest
put_at i new [] = []
put_at i new (lm ∷ lines) =
    let rest = put_at i new lines in if str_eq lm.line_id i then new ∷ lines else lm ∷ rest

-- The lines of other pages that a reference may name; with no such map it finds none.
abbrev pub Partners : Type 0
Partners = LineRef → Option LineManifest

-- `_lookup_ref`
unfoldable pub lookup_ref :
    Option LineRef → String → List LineManifest → Partners → Option LineManifest
unfolding line_at
lookup_ref none page_id lines partners = none
lookup_ref (some r) page_id lines partners =
    if str_eq r.page_id page_id then line_at r.line_id lines else partners r

unfoldable pub has_fallen : Option LineManifest → Bool
unfolding is_fallback
has_fallen none = false
has_fallen (some partner) = is_fallback partner.status

-- `fallen_partner`
unfoldable pub fallen_partner : LineManifest → List LineManifest → Partners → Bool
unfolding has_fallen lookup_ref
fallen_partner lm lines partners =
    has_fallen (lookup_ref (pair_ref lm) lm.page_id lines partners)
    || has_fallen (lookup_ref (forward_ref lm) lm.page_id lines partners)

-- The line's text ends on a break mark and the correction does not.
unfoldable pub completes_hyphen : LineManifest → Text → Bool
completes_hyphen lm corrected =
    wants_forward lm.hyphen_role
    && ends_with_break_mark lm.ocr_text
    && not (ends_with_break_mark corrected)

-- `prev_ocr` and `next_ocr`
unfoldable pub text_of : Option LineManifest → Option Text
text_of none = none
text_of (some lm) = some lm.ocr_text

unfoldable pub neighbour_text : Option String → List LineManifest → Option Text
unfolding text_of line_at
neighbour_text i lines = elim (truthy i) [ none ↦ none | some j ↦ text_of (line_at j lines) ]

-- `result.reason or "rejected"`
unfoldable pub reason_or : Option Text → Text
reason_or none = codes "rejected"
reason_or (some reason) = if is_empty reason then codes "rejected" else reason

unfoldable pub take_verdict :
    AcceptanceResult → LineManifest → Option Traces → LineManifest × Option Traces
unfolding reason_or
take_verdict result lm traces =
    if result.accepted
    then accept lm result.text traces
    else fall_back lm (reason_or result.reason) traces

module _ (fl : Floats) (config : GuardConfig fl) (partners : Partners)
    (texts : List (String × Text)) where
  -- The line's verdict on its own proposal.
  unfoldable pub line_verdict : LineManifest → Text → List LineManifest → AcceptanceResult
  unfolding neighbour_text
  line_verdict lm corrected lines =
      check_line fl config lm.ocr_text corrected (neighbour_text lm.prev_line_id lines)
        (neighbour_text lm.next_line_id lines)

  unfoldable pub decide_line :
      LineManifest → Text → List LineManifest → Option Traces → LineManifest × Option Traces
  unfolding completes_hyphen fallen_partner take_verdict line_verdict
  decide_line lm corrected lines traces =
      if completes_hyphen lm corrected
      then fall_back lm (codes "orphan_hyphen_completed") traces
      else if fallen_partner lm lines partners
      then fall_back lm (codes "hyphen_partner_fell_back") traces
      else take_verdict (line_verdict lm corrected lines) lm traces

  -- A line with a decision, and one with no proposal, is passed over.
  unfoldable pub proposal_for : LineManifest → Option Text
  proposal_for lm = elim lm.corrected_text [ some decided ↦ none | none ↦ lookup lm.line_id texts ]

  unfoldable pub visit :
      String → List LineManifest → Option Traces → List LineManifest × Option Traces
  unfolding line_at put_at decide_line proposal_for
  visit i lines traces = elim (line_at i lines) [
    | none ↦ (lines, traces)
    | some lm ↦ elim (proposal_for lm) [
      | none ↦ (lines, traces)
      | some corrected ↦
          let decided = decide_line lm corrected lines traces in
          (put_at i decided.0 lines, decided.1)
    ]
  ]

  unfoldable pub apply_line_acceptance :
      List String → List LineManifest → Option Traces → List LineManifest × Option Traces
  unfolding visit
  apply_line_acceptance [] lines traces = (lines, traces)
  apply_line_acceptance (i ∷ chunk) lines traces =
      let after = visit i lines traces in apply_line_acceptance chunk after.0 after.1
