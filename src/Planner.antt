-- ===== src/Planner.antt =====
-- core/planner.py: the tiers of granularity and what a plan is made of. A chunk's identifier, a
-- random UUID that nothing here reads, and the document's name are left out.
pub mod Line
pub mod Block
pub mod Page
pub mod Window
pub mod Segments
use corrigenda.Base.{
  ℕ, suc, ◌+◌, ◌-◌, Bool, Option, none, some, List, [], ◌∷◌, ◌++◌, String, str_eq, length, take,
  drop, if◌then◌else◌,
}
use corrigenda.Manifest.{LineManifest}
use corrigenda.Units.{HyphenSplit}

pub data ChunkGranularity : Type 0 where
  page block window line : ChunkGranularity

-- The next place in _CHAIN.
unfoldable pub downgrade_granularity : ChunkGranularity → Option ChunkGranularity
downgrade_granularity ChunkGranularity.page = some ChunkGranularity.block
downgrade_granularity ChunkGranularity.block = some ChunkGranularity.window
downgrade_granularity ChunkGranularity.window = some ChunkGranularity.line
downgrade_granularity ChunkGranularity.line = none

unfoldable pub total_chars : List LineManifest → ℕ
total_chars [] = 0
total_chars (lm ∷ lines) = length lm.ocr_text + total_chars lines

-- core/schemas/policies.py
pub record ChunkRequest : Type 0 where
  pub page_id : String
  pub block_id : Option String
  pub granularity : ChunkGranularity
  pub line_ids : List String
  pub target_line_ids : Option (List String)

pub record ChunkPlan : Type 0 where
  pub page_id : String
  pub chunks : List ChunkRequest
  pub granularity : ChunkGranularity
  pub hyphen_splits : List HyphenSplit

-- `ChunkRequest.targets`
unfoldable pub chunk_targets : ChunkRequest → List String
chunk_targets chunk = elim chunk.target_line_ids [ none ↦ chunk.line_ids | some ids ↦ ids ]

-- The lines of each chunk.
abbrev pub chunk_ids : List ChunkRequest → List (List String)
chunk_ids [] = []
chunk_ids (chunk ∷ rest) = chunk.line_ids ∷ chunk_ids rest

-- The targets of each chunk.
abbrev pub target_ids_of : List ChunkRequest → List (List String)
target_ids_of [] = []
target_ids_of (chunk ∷ rest) = chunk_targets chunk ∷ target_ids_of rest

unfoldable pub ids_of_lines : List LineManifest → List String
ids_of_lines [] = []
ids_of_lines (lm ∷ lines) = lm.line_id ∷ ids_of_lines lines

-- `lines[a:b]`
abbrev pub segment {ℓ} : {A : Type ℓ} → ℕ → ℕ → List A → List A
segment a b l = take (b - a) (drop a l)

-- `index_by_id`: of a repeated identifier, the last position.
unfoldable pub index_by_id : List LineManifest → String → Option ℕ
index_by_id [] i = none
index_by_id (lm ∷ lines) i = elim (index_by_id lines i) [
  | some k ↦ some (suc k)
  | none ↦ if str_eq lm.line_id i then some 0 else none
]
