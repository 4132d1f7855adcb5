-- ===== src/Enrich.antt =====
-- `enrich_chunk_lines` of core/hyphenation.py: what a producer is told of each line of a chunk; and
-- `_finalize_chunk_traces` of core/traces.py, what the traces say of it afterwards.
use corrigenda.Base.{
  ℕ, Bool, true, Option, none, some, List, [], ◌∷◌, String, Text, lookup, if◌then◌else◌,
}
use corrigenda.Manifest.{Coords, HyphenRole, LineManifest}
use corrigenda.Decide.{LineTrace, Traces, set_trace}
use corrigenda.Hyphenation.{given_or}
use corrigenda.Pairing.{forward_partner_ref, backward_partner_ref, or_text}
use corrigenda.LineAcceptance.{neighbour_text}
use corrigenda.ChunkReconcile.{is_both}

pub record LineGeometry : Type 0 where
  pub coords : Coords
  pub page_width : ℕ
  pub page_height : ℕ

pub record LineContext : Type 0 where
  pub line_id : String
  pub prev_text : Option Text
  pub ocr_text : Text
  pub next_text : Option Text
  pub hyphenation_role : Option HyphenRole
  pub hyphen_candidate : Option Bool
  pub hyphen_join_with_next : Option Bool
  pub hyphen_join_with_prev : Option Bool
  pub backward_join_candidate : Option Text
  pub forward_join_candidate : Option Text
  pub geometry : Option LineGeometry

-- `page_dims`, which counts only where geometry is asked for.
abbrev pub PageDims : Type 0
PageDims = List (String × (ℕ × ℕ))

unfoldable pub line_geometry : Bool → PageDims → LineManifest → Option LineGeometry
unfolding lookup
line_geometry include page_dims lm =
    if include
    then elim (lookup lm.page_id page_dims) [
      | none ↦ none
      | some (width, height) ↦
          some (record { coords = lm.coords; page_width = width; page_height = height })
    ]
    else none

-- `joins or None`, and the candidate for a join that there is.
unfoldable pub joins {ℓ} : {A : Type ℓ} → Option A → Option Bool
joins none = none
joins (some r) = some true

unfoldable pub candidate_for {ℓ} : {A : Type ℓ} → Option A → Option Text → Option Text
unfolding or_text
candidate_for none subs = none
candidate_for (some r) subs = or_text subs none

unfoldable pub forward_subs : LineManifest → Option Text
unfolding is_both
forward_subs lm =
    if is_both lm.hyphen_role then lm.hyphen_forward_subs_content else lm.hyphen_subs_content

module _ (all_lines : List LineManifest) (include : Bool) (page_dims : PageDims) where
  unfoldable pub plain_context : LineManifest → LineContext
  unfolding neighbour_text line_geometry
  plain_context lm = record {
    line_id = lm.line_id;
    prev_text = neighbour_text lm.prev_line_id all_lines;
    ocr_text = lm.ocr_text;
    next_text = neighbour_text lm.next_line_id all_lines;
    hyphenation_role = none;
    hyphen_candidate = none;
    hyphen_join_with_next = none;
    hyphen_join_with_prev = none;
    backward_join_candidate = none;
    forward_join_candidate = none;
    geometry = line_geometry include page_dims lm;
  }

  -- A join is told of where there is a link, and not where the role alone says so.
  unfoldable pub broken_context : LineManifest → LineContext
  unfolding plain_context forward_partner_ref backward_partner_ref joins candidate_for forward_subs
  broken_context lm = record (plain_context lm) {
    hyphenation_role = some lm.hyphen_role;
    hyphen_candidate = some true;
    hyphen_join_with_next = joins (forward_partner_ref lm);
    hyphen_join_with_prev = joins (backward_partner_ref lm);
    backward_join_candidate = candidate_for (backward_partner_ref lm) lm.hyphen_subs_content;
    forward_join_candidate = candidate_for (forward_partner_ref lm) (forward_subs lm);
  }

  unfoldable pub line_context : HyphenRole → LineManifest → LineContext
  unfolding plain_context broken_context
  line_context HyphenRole.no_role lm = plain_context lm
  line_context HyphenRole.part1 lm = broken_context lm
  line_context HyphenRole.part2 lm = broken_context lm
  line_context HyphenRole.both lm = broken_context lm

  unfoldable pub enrich_chunk_lines : List LineManifest → List LineContext
  unfolding line_context
  enrich_chunk_lines [] = []
  enrich_chunk_lines (lm ∷ lines) = line_context lm.hyphen_role lm ∷ enrich_chunk_lines lines

-- `_finalize_chunk_traces`
unfoldable pub projected : LineManifest → LineTrace → LineTrace
unfolding given_or
projected lm t = record t {
  projected_text = some (given_or lm.corrected_text lm.ocr_text);
  validation_status = some lm.status;
}

unfoldable pub finalize_chunk_traces : List LineManifest → Option Traces → Option Traces
unfolding projected set_trace
finalize_chunk_traces [] traces = traces
finalize_chunk_traces (lm ∷ lines) traces =
    finalize_chunk_traces lines (set_trace (projected lm) lm traces)
