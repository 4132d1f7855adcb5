-- ===== src/Planner/Line.antt =====
-- `_plan_line` of core/planner.py: hyphen chains of adjacent lines, cut where they outgrow a request.
-- The source severs the cut links in the page's lines; the model returns the lines as they become.
-- `none` is the RuntimeError of `split_forward_link`. An identifier that `forward_partner_id`
-- returns is not empty, so that `not forward_pair` is `none` here.
pub mod Severing
pub mod Partition
use corrigenda.Base.{
  ℕ, zero, suc, ◌+◌, ◌-◌, Bool, true, false, Option, none, some, List, [], ◌∷◌, ◌++◌, String, is_in,
  length, get_elem?, take, drop, ltb, leb, if◌then◌else◌,
}
use corrigenda.Manifest.{LineManifest, PageManifest}
use corrigenda.Pairing.{forward_partner_id}
use corrigenda.Policies.{ChunkPlannerConfig}
use corrigenda.Units.{HyphenSplit, Severance, split_forward_link}
use corrigenda.Planner.{
  ChunkGranularity, ChunkRequest, ChunkPlan, ids_of_lines, segment, index_by_id,
}

unfoldable pub put {ℓ} : {A : Type ℓ} → ℕ → A → List A → List A
put k x [] = []
put zero x (y ∷ ys) = x ∷ ys
put (suc k) x (y ∷ ys) = y ∷ put k x ys

unfoldable pub forward_at : List LineManifest → ℕ → Option String
forward_at lines j = elim (get_elem? lines j) [ none ↦ none | some lm ↦ forward_partner_id lm ]

-- The lines, the chunks and the severed links of a plan in the making.
pub record LinePlan : Type 0 where
  pub lines : List LineManifest
  pub chunks : List (List String)
  pub splits : List HyphenSplit

-- `split_forward_link` on the lines at `j` and `k`
unfoldable pub sever_at : List LineManifest → ℕ → ℕ → Option (List LineManifest × List HyphenSplit)
sever_at lines j k = elim (get_elem? lines j) [
  | none ↦ none
  | some tail ↦ elim (get_elem? lines k) [
    | none ↦ none
    | some head ↦ elim (split_forward_link tail head) [
      | none ↦ none
      | some s ↦ some (put k s.head (put j s.tail lines), s.split ∷ [])
    ]
  ]
]

unfoldable pub add_chunk : List String → List HyphenSplit → Option LinePlan → Option LinePlan
add_chunk chain splits none = none
add_chunk chain splits (some plan) =
    some (record plan { chunks = chain ∷ plan.chunks; splits = splits ++ plan.splits })

module _ (at : String → Option ℕ) (max_lines : ℕ) where
  -- Where the inner loop goes on to from line `j`, with `count` lines in the chain: `none` breaks.
  unfoldable pub next_in_chain : List LineManifest → ℕ → ℕ → Option ℕ
  next_in_chain lines count j = elim (forward_at lines j) [
    | none ↦ none
    | some partner ↦ elim (at partner) [
      | none ↦ none
      | some k ↦ if leb k j then none else if ltb max_lines (count + (k - j)) then none else some k
    ]
  ]

  -- The inner loop: the chain and its last line. Each step goes forward in the page.
  unfoldable pub walk : ℕ → List LineManifest → List String → ℕ → List String × ℕ
  walk zero lines chain j = (chain, j)
  walk (suc fuel) lines chain j = elim (next_in_chain lines (length chain) j) [
    | none ↦ (chain, j)
    | some k ↦ walk fuel lines (chain ++ ids_of_lines (segment (suc j) (suc k) lines)) k
  ]

  -- The link that leaves the chain from its last line, severed if it leads into the page.
  unfoldable pub sever :
      List LineManifest → List String → ℕ → Option (List LineManifest × List HyphenSplit)
  sever lines chain j = elim (forward_at lines j) [
    | none ↦ some (lines, [])
    | some partner ↦
        if is_in partner chain
        then some (lines, [])
        else elim (at partner) [ none ↦ some (lines, []) | some k ↦ sever_at lines j k ]
  ]

  -- The outer loop from line `i`; each turn goes forward, so the page's length is fuel enough.
  unfoldable pub plan_chunks : ℕ → List LineManifest → ℕ → Option LinePlan
  plan_chunks zero lines i = some (record { lines = lines; chunks = []; splits = [] })
  plan_chunks (suc fuel) lines i = elim (get_elem? lines i) [
    | none ↦ some (record { lines = lines; chunks = []; splits = [] })
    | some lm ↦
        let (chain, j) = walk (length lines) lines (lm.line_id ∷ []) i in
        elim (sever lines chain j) [
          | none ↦ none
          | some (severed, splits) ↦ add_chunk chain splits (plan_chunks fuel severed (suc j))
        ]
  ]

unfoldable pub line_chunks : String → List (List String) → List ChunkRequest
line_chunks page_id [] = []
line_chunks page_id (ids ∷ rest) =
    record {
      page_id = page_id;
      block_id = none;
      granularity = ChunkGranularity.line;
      line_ids = ids;
      target_line_ids = none;
    }
    ∷ line_chunks page_id rest

-- The plan, and the page's lines as planning leaves them.
unfoldable pub finished_plan : PageManifest → LinePlan → ChunkPlan × List LineManifest
unfolding line_chunks
finished_plan page plan = (
  record {
    page_id = page.page_id;
    chunks = line_chunks page.page_id plan.chunks;
    granularity = ChunkGranularity.line;
    hyphen_splits = plan.splits;
  },
  plan.lines,
)

unfoldable pub plan_line :
    PageManifest → ChunkPlannerConfig → Option (ChunkPlan × List LineManifest)
unfolding finished_plan
plan_line page config =
    elim (plan_chunks (index_by_id page.lines) config.max_lines_per_request (length page.lines)
      page.lines 0) [ none ↦ none | some plan ↦ some (finished_plan page plan) ]
