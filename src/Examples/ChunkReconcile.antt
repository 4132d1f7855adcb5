-- ===== src/Examples/ChunkReconcile.antt =====
-- Examples for ChunkReconcile and PageUnits (core/reconcile.py).
use corrigenda.Base.{◌≡◌, refl, false, none, some, List, [], ◌∷◌, String, codes}
use corrigenda.Manifest.{LineManifest, LineRef}
use corrigenda.LineAcceptance.{Partners}
use corrigenda.ChunkReconcile.{Direction, claim_joins}
use corrigenda.PageUnits.{local_units_of, visible_units_of, build_hyphen_pairs}
use corrigenda.Units.Groups.{HyphenGroup}
use corrigenda.Examples.Samples.{opening, closing}

abbrev nobody : Partners
nobody r = none

-- A word broken over "a" and "b"; the second half of the word on "c" is on no line.
abbrev page_lines : List LineManifest
page_lines =
    opening "a" "b" (codes "tbe inter-")
    ∷ closing "b" "a" (codes "natlonal end")
    ∷ opening "c" "gone" (codes "an ex-")
    ∷ []

abbrev ref : String → LineRef
ref i = record { page_id = "p"; line_id = i }

-- The join is claimed once, by its tail, and the partner that is missing is reported.
claimed :
    (claim_joins page_lines nobody page_lines).joins
    ≡ (ref "a", record { tail = ref "a"; head = ref "b"; is_forward = false }) ∷ []
unfolding claim_joins
claimed = refl

reported :
    (claim_joins page_lines nobody page_lines).missing
    ≡ record { line_id = "c"; missing_partner_id = "gone"; direction = Direction.backward } ∷ []
unfolding claim_joins
reported = refl

-- A chunk with only the head claims nothing on the page.
head_claims_nothing :
    (claim_joins page_lines nobody (closing "b" "a" (codes "natlonal end") ∷ [])).joins ≡ []
unfolding claim_joins
head_claims_nothing = refl

abbrev group : HyphenGroup
group = record {
  members = ref "a" ∷ ref "b" ∷ [];
  spans_pages = false;
  explicit = false;
  complete = false;
}

-- A unit that goes on elsewhere is not whole on the page, and the page shows its members.
not_local : local_units_of (group ∷ []) "a" ≡ none
unfolding local_units_of
not_local = refl

visible : visible_units_of ("a" ∷ "b" ∷ "c" ∷ []) (group ∷ []) "a" ≡ some ("a" ∷ "b" ∷ [])
unfolding visible_units_of
visible = refl

pairs : build_hyphen_pairs page_lines ≡ ("a", "b") ∷ ("b", "a") ∷ ("c", "gone") ∷ ("gone", "c") ∷ []
unfolding build_hyphen_pairs
pairs = refl
