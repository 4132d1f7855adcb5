-- ===== src/ChunkReconcile.antt =====
-- The hyphen reconciliation of a chunk in core/reconcile.py (`_claim_joins`,
-- `_walk_units_reconciling`, `_refresh_pair_traces`). The source's joins share their lines with the
-- pool, so that a pair sees what the pair before it wrote: the model's joins name their lines, and the
-- pool holds them. The events for partners that are not found are a list.
pub mod Owned
pub mod Keeps
pub mod Claimed
use corrigenda.Base.{
  ℕ, suc, ltb, length, Bool, true, false, not, ◌&&◌, ◌||◌, Option, none, some, List, [], ◌∷◌, ◌++◌,
  String, str_eq, Text, codes, is_in, if◌then◌else◌,
}
use corrigenda.Floats.{Floats, Unicode}
use corrigenda.Policies.{GuardConfig}
use corrigenda.Manifest.{LineManifest, LineRef, LineStatus, HyphenRole, line_ref, ref_eq}
use corrigenda.Pairing.{forward_partner_ref, backward_partner_ref}
use corrigenda.Decide.{LineTrace, Traces, set_trace, note_reason}
use corrigenda.Hyphenation.{ReconcileOutcome, coherent, fell_back, neutralised}
use corrigenda.Units.Groups.{
  HyphenGroup, at_ref, set_ref, ref_in, index_lines, derive_hyphen_groups,
}
use corrigenda.Acceptance.{group_by_line}
use corrigenda.Reconcile.{Joined, is_fallback, reconcile_one_pair}
use corrigenda.LineAcceptance.{Partners, lookup_ref}

-- A join that the chunk owns, by the references of its two lines.
pub record Join : Type 0 where
  pub tail : LineRef
  pub head : LineRef
  pub is_forward : Bool

pub data Direction : Type 0 where
  forward backward : Direction

pub record MissingPartner : Type 0 where
  pub line_id : String
  pub missing_partner_id : String
  pub direction : Direction

abbrev pub Pool : Type 0
Pool = List (LineRef × LineManifest)

pub record Claims : Type 0 where
  pub joins : List (LineRef × Join)
  pub pool : Pool
  pub missing : List MissingPartner

unfoldable pub is_both : HyphenRole → Bool
is_both HyphenRole.both = true
is_both HyphenRole.part1 = false
is_both HyphenRole.part2 = false
is_both HyphenRole.no_role = false

-- `_claim`
unfoldable pub claim : LineManifest → LineManifest → Claims → Claims
unfolding set_ref line_ref is_both
claim tail head c = record c {
  pool = set_ref (line_ref head) head (set_ref (line_ref tail) tail c.pool);
  joins =
      set_ref (line_ref tail)
        (record {
          tail = line_ref tail;
          head = line_ref head;
          is_forward = is_both tail.hyphen_role;
        })
        c.joins;
}

unfoldable pub note_missing : LineManifest → LineRef → Direction → Claims → Claims
note_missing lm r direction c = record c {
  missing =
      c.missing
      ++ record { line_id = lm.line_id; missing_partner_id = r.line_id; direction = direction }
        ∷ [];
}

-- The claim of a line on the head that its reference found, and on the tail.
unfoldable pub claim_head : LineManifest → LineRef → Option LineManifest → Claims → Claims
unfolding claim note_missing is_both
claim_head lm r none c =
    note_missing lm r (if is_both lm.hyphen_role then Direction.forward else Direction.backward) c
claim_head lm r (some head) c = claim lm head c

unfoldable pub claim_tail : LineManifest → LineRef → Option LineManifest → Claims → Claims
unfolding claim note_missing
claim_tail lm r none c = note_missing lm r Direction.backward c
claim_tail lm r (some tail) c = claim tail lm c

module _ (page_lines : List LineManifest) (partners : Partners) where
  -- `_resolve`, without its event.
  unfoldable pub resolve : LineRef → LineManifest → Option LineManifest
  unfolding lookup_ref
  resolve r lm = lookup_ref (some r) lm.page_id page_lines partners

  -- The line continues onto another: its join is the chunk's unless it leaves the page.
  unfoldable pub claim_outgoing : LineManifest → Claims → Claims
  unfolding forward_partner_ref resolve claim_head
  claim_outgoing lm c = elim (forward_partner_ref lm) [
    | none ↦ c
    | some r ↦ if str_eq r.page_id lm.page_id then claim_head lm r (resolve r lm) c else c
  ]

  -- Another line continues onto it: their join is the chunk's only where it leaves the page.
  unfoldable pub claim_incoming : LineManifest → Claims → Claims
  unfolding backward_partner_ref resolve claim_tail
  claim_incoming lm c = elim (backward_partner_ref lm) [
    | none ↦ c
    | some r ↦ if str_eq r.page_id lm.page_id then c else claim_tail lm r (resolve r lm) c
  ]

  unfoldable pub claim_lines : List LineManifest → Claims → Claims
  unfolding claim_outgoing claim_incoming
  claim_lines [] c = c
  claim_lines (lm ∷ lines) c = claim_lines lines (claim_incoming lm (claim_outgoing lm c))

  unfoldable pub claim_joins : List LineManifest → Claims
  unfolding claim_lines index_lines
  claim_joins chunk_lines =
      claim_lines chunk_lines
        (record { joins = []; pool = index_lines [] chunk_lines; missing = [] })

unfoldable pub outcome_text : ReconcileOutcome → Text
outcome_text ReconcileOutcome.coherent = codes "hyphen_pair_coherent"
outcome_text ReconcileOutcome.fell_back = codes "hyphen_pair_fallback"
outcome_text ReconcileOutcome.neutralised = codes "hyphen_pair_neutralised"

-- One side of `_refresh_pair_traces`.
unfoldable pub refreshed : LineManifest → LineTrace → LineTrace
unfolding is_fallback
refreshed side t = record t {
  projected_text = side.corrected_text;
  validation_status =
      some (if is_fallback side.status then LineStatus.fallback else LineStatus.corrected);
}

unfoldable pub refresh_side : LineManifest → ReconcileOutcome → Option Traces → Option Traces
unfolding set_trace refreshed note_reason outcome_text is_fallback
refresh_side side outcome traces =
    let written = set_trace (refreshed side) side traces in
    if is_fallback side.status
    then set_trace (note_reason (outcome_text outcome)) side written
    else written

unfoldable pub refresh_pair_traces : Joined → Option Traces
unfolding refresh_side
refresh_pair_traces j = refresh_side j.head j.outcome (refresh_side j.tail j.outcome j.traces)

pub record ReconcileMetrics : Type 0 where
  pub coherent : ℕ
  pub fallback : ℕ
  pub neutralised : ℕ

-- `_record_reconcile_outcome`
unfoldable pub record_outcome : ReconcileOutcome → ReconcileMetrics → ReconcileMetrics
record_outcome ReconcileOutcome.coherent m = record m { coherent = suc m.coherent }
record_outcome ReconcileOutcome.fell_back m = record m { fallback = suc m.fallback }
record_outcome ReconcileOutcome.neutralised m = record m { neutralised = suc m.neutralised }

pub record Walk : Type 0 where
  pub pool : Pool
  pub traces : Option Traces
  pub metrics : ReconcileMetrics
  pub written_heads : List LineRef
  pub reconciled_count : ℕ

-- What a pair that is decided leaves behind.
unfoldable pub write_joined : Join → Joined → Walk → Walk
unfolding set_ref refresh_pair_traces record_outcome
write_joined join j w = record {
  pool = set_ref join.head j.head (set_ref join.tail j.tail w.pool);
  traces = refresh_pair_traces j;
  metrics = record_outcome j.outcome w.metrics;
  written_heads = join.head ∷ w.written_heads;
  reconciled_count = suc w.reconciled_count;
}

module _ (fl : Floats) (uni : Unicode) (cfg : GuardConfig fl)
    (text_by_id : String → Option Text) where
  -- Both lines of a join are in the pool since it was claimed.
  unfoldable pub walk_join : Join → Walk → Walk
  unfolding at_ref ref_in reconcile_one_pair write_joined
  walk_join join w =
      if ref_in join.head w.written_heads then w else elim (at_ref join.tail w.pool) [
        | none ↦ w
        | some tail ↦ elim (at_ref join.head w.pool) [
          | none ↦ w
          | some head ↦
              write_joined join
                (reconcile_one_pair fl uni cfg text_by_id join.is_forward tail head w.traces) w
        ]
      ]

  unfoldable pub walk_members : List (LineRef × Join) → List LineRef → Walk → Walk
  unfolding at_ref walk_join
  walk_members joins [] w = w
  walk_members joins (m ∷ members) w =
      walk_members joins members (elim (at_ref m joins) [ none ↦ w | some join ↦ walk_join join w ])

  unfoldable pub walk_units : List (LineRef × Join) → List HyphenGroup → Walk → Walk
  unfolding walk_members
  walk_units joins [] w = w
  walk_units joins (g ∷ groups) w = walk_units joins groups (walk_members joins g.members w)

unfoldable pub lines_of_pool : Pool → List LineManifest
lines_of_pool [] = []
lines_of_pool ((r, lm) ∷ pool) = lm ∷ lines_of_pool pool

-- `_reconcile_chunk_hyphens`; the traces and the metrics are the run's.
unfoldable pub reconcile_chunk_hyphens :
    (fl : Floats) (uni : Unicode) (cfg : GuardConfig fl)
    → (String → Option Text)
    → List LineManifest
    → Partners
    → List LineManifest
    → Option Traces
    → ReconcileMetrics
    → Walk × List MissingPartner
unfolding claim_joins walk_units derive_hyphen_groups lines_of_pool
reconcile_chunk_hyphens fl uni cfg text_by_id page_lines partners chunk_lines traces metrics =
    let claims = claim_joins page_lines partners chunk_lines in
    (
      walk_units fl uni cfg text_by_id claims.joins
          (derive_hyphen_groups (lines_of_pool claims.pool))
          (record {
            pool = claims.pool;
            traces = traces;
            metrics = metrics;
            written_heads = [];
            reconciled_count = 0;
          }),
      claims.missing,
    )
