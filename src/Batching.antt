-- ===== src/Batching.antt =====
-- core/batching.py: a chunk cut into calls that send no more images than the producer takes, one
-- for each line, with no hyphen unit cut. `none` is the ConfigurationError for a unit that needs
-- more. The units that a page shows, which core/reconcile.py derives, are a function of a line's
-- identifier, and a batch's identifier, the chunk's with a number, is left out.
pub mod Capped
use corrigenda.Base.{
  ℕ, ◌+◌, Bool, true, false, ◌&&◌, ◌||◌, not, Option, none, some, List, [], ◌∷◌, ◌++◌, String,
  str_eq, is_in, select, length, ltb, leb, if◌then◌else◌,
}
use corrigenda.Manifest.{HyphenRole, LineManifest}
use corrigenda.Planner.{ChunkRequest, chunk_targets}

-- What a producer says of itself.
pub record Producer : Type 0 where
  pub wants_image : Bool
  pub max_images : Option ℕ

unfoldable pub image_cap : Producer → Option ℕ
image_cap p = if p.wants_image then p.max_images else none

unfoldable pub has_role : HyphenRole → Bool
has_role HyphenRole.no_role = false
has_role HyphenRole.part1 = true
has_role HyphenRole.part2 = true
has_role HyphenRole.both = true

unfoldable pub add_batch : List String → Option (List (List String)) → Option (List (List String))
add_batch batch none = none
add_batch batch (some batches) = some (batch ∷ batches)

-- `if current: batches.append(current)`
unfoldable pub last_batch : List String → List (List String)
last_batch [] = []
last_batch (i ∷ is) = (i ∷ is) ∷ []

unfoldable pub is_open : List String → Bool
is_open [] = false
is_open (i ∷ is) = true

module _ (line_of : String → Option LineManifest) (units : String → Option (List String)) where
  -- The unit that a line brings with it, as far as it is not assigned yet.
  unfoldable pub in_unit : List String → String → String → Bool
  in_unit assigned line_id i = elim (line_of line_id) [
    | none ↦ str_eq i line_id
    | some lm ↦
        if has_role lm.hyphen_role
        then elim (units line_id) [
          | none ↦ str_eq i line_id
          | some unit ↦ is_in i unit && not (is_in i assigned)
        ]
        else str_eq i line_id
  ]

  module _ (cap : ℕ) (line_ids targets : List String) where
    unfoldable pub members_of : List String → String → List String
    members_of assigned line_id = select (in_unit assigned line_id) line_ids

    -- The loop over the chunk's lines, with the batch that is being filled and the lines assigned.
    unfoldable pub batches_from :
        List String → List String → List String → Option (List (List String))
    batches_from [] current assigned = some (last_batch current)
    batches_from (i ∷ rest) current assigned =
        let members = members_of assigned i in
        let skip = batches_from rest current assigned in
        let close = add_batch current (batches_from rest members (members ++ assigned)) in
        let fill = batches_from rest (current ++ members) (members ++ assigned) in
        if is_in i assigned || not (is_in i targets)
        then skip
        else if ltb cap (length members)
        then none
        else if is_open current && ltb cap (length current + length members)
        then close
        else fill

  unfoldable pub batch_chunks : ChunkRequest → List (List String) → List ChunkRequest
  batch_chunks chunk [] = []
  batch_chunks chunk (batch ∷ batches) =
      record chunk {
        line_ids = batch;
        target_line_ids = some (select (λ i. is_in i (chunk_targets chunk)) batch);
      }
      ∷ batch_chunks chunk batches

  unfoldable pub split_chunk : Option ℕ → ChunkRequest → Option (List ChunkRequest)
  split_chunk none chunk = some (chunk ∷ [])
  split_chunk (some cap) chunk =
      if leb (length chunk.line_ids) cap
      then some (chunk ∷ [])
      else elim (batches_from cap chunk.line_ids (chunk_targets chunk) chunk.line_ids [] []) [
        | none ↦ none
        | some batches ↦ some (batch_chunks chunk batches)
      ]

  unfoldable pub with_producer : Producer → List ChunkRequest → List (ChunkRequest × Producer)
  with_producer p [] = []
  with_producer p (chunk ∷ chunks) = (chunk, p) ∷ with_producer p chunks

  -- `_split_for_image_cap`
  unfoldable pub split_for_image_cap :
      List (ChunkRequest × Producer) → Option (List (ChunkRequest × Producer))
  split_for_image_cap [] = some []
  split_for_image_cap ((chunk, p) ∷ routed) = elim (split_chunk (image_cap p) chunk) [
    | none ↦ none
    | some chunks ↦ elim (split_for_image_cap routed) [
      | none ↦ none
      | some rest ↦ some (with_producer p chunks ++ rest)
    ]
  ]
