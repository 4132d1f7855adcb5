-- ===== src/Examples/Batching.antt =====
-- Examples for Batching (core/batching.py).
use corrigenda.Base.{
  ◌≡◌, refl, Option, none, some, List, [], ◌∷◌, String, codes, str_eq, is_in, select, arith,
  if◌then◌else◌,
}
use corrigenda.Manifest.{LineManifest}
use corrigenda.Planner.{ChunkGranularity, ChunkRequest, chunk_targets}
use corrigenda.Batching.{
  has_role, add_batch, last_batch, is_open, in_unit, members_of, batches_from, batch_chunks,
  split_chunk,
}
use corrigenda.Batching.Capped.{IsReflexive, IsSplit, split_chunk-IsSplit}
use corrigenda.Examples.Samples.{fresh, opening, middle, closing}

-- A broken word over the lines "b", "c" and "d".
abbrev word_lines : List String
word_lines = "b" ∷ "c" ∷ "d" ∷ []

abbrev line_at : String → Option LineManifest
line_at i =
    if str_eq i "b"
    then some (opening "b" "c" (codes "inter-"))
    else if str_eq i "c"
    then some (middle "c" "b" "d" (codes "natio-"))
    else if str_eq i "d"
    then some (closing "d" "c" (codes "nal"))
    else some (fresh i (codes "one"))

abbrev units : String → Option (List String)
units i = if is_in i word_lines then some word_lines else none

units-IsReflexive : IsReflexive line_at units
units-IsReflexive i unit h = ground arith

abbrev images : List String → ChunkRequest
images ids = record {
  page_id = "p";
  block_id = none;
  granularity = ChunkGranularity.page;
  line_ids = ids;
  target_line_ids = none;
}

abbrev call : List String → ChunkRequest
call ids = record (images ids) { target_line_ids = some ids }

abbrev calls : List ChunkRequest
calls = call ("a" ∷ []) ∷ call word_lines ∷ call ("e" ∷ []) ∷ []

-- With three images to a call, the word stays in one.
splits : split_chunk line_at units (some 3) (images ("a" ∷ "b" ∷ "c" ∷ "d" ∷ "e" ∷ [])) ≡ some calls
unfolding split_chunk batches_from members_of in_unit has_role add_batch last_batch is_open
    batch_chunks chunk_targets is_in select
splits = refl

split_chunk-IsSplit_example :
    IsSplit line_at units (some 3) (images ("a" ∷ "b" ∷ "c" ∷ "d" ∷ "e" ∷ [])) calls
split_chunk-IsSplit_example =
    split_chunk-IsSplit line_at units (some 3) (images ("a" ∷ "b" ∷ "c" ∷ "d" ∷ "e" ∷ [])) calls
      units-IsReflexive splits
