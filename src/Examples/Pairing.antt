-- ===== src/Examples/Pairing.antt =====
-- Examples for Pairing and Units (core/pairing.py, core/units.py).
use corrigenda.Base.{
  Bool, true, ◌≡◌, refl, Option, none, some, List, [], ◌∷◌, String, Text, codes, select, All,
}
use corrigenda.Manifest.{LineManifest, HyphenRole, wants_backward}
use corrigenda.Pairing.{forward_partner_id, link_pair, link_hyphen_pairs, is_substantive}
use corrigenda.Pairing.Links.{IsUnlinked, Agree, link_hyphen_pairs-Agree}
use corrigenda.Units.{Severance, split_forward_link}
use corrigenda.Units.Severed.{IsSevered, split_forward_link-IsSevered}
use corrigenda.Examples.Samples.{fresh, opening, middle}

-- A line that ends on a break mark, as the parsers leave it.
abbrev marked : String → Text → LineManifest
marked i text = record (fresh i text) { hyphen_role = HyphenRole.part1 }

abbrev always : LineManifest → LineManifest → Bool
always a b = true

-- A word broken over three lines, a blank line between them.
abbrev broken : List LineManifest
broken =
    marked "a" (codes "inter-")
    ∷ fresh "x" (codes " ")
    ∷ marked "b" (codes "natio-")
    ∷ fresh "c" (codes "nal.")
    ∷ []

abbrev broken-IsUnlinked : All IsUnlinked broken
broken-IsUnlinked =
    let un : IsUnlinked (marked "a" (codes "inter-")) = record {
      named = record { line_named = refl; page_named = refl };
      no_pair = refl;
      no_forward = refl;
    } in
    let ux : IsUnlinked (fresh "x" (codes " ")) = record {
      named = record { line_named = refl; page_named = refl };
      no_pair = refl;
      no_forward = refl;
    } in
    let ub : IsUnlinked (marked "b" (codes "natio-")) = record {
      named = record { line_named = refl; page_named = refl };
      no_pair = refl;
      no_forward = refl;
    } in
    let uc : IsUnlinked (fresh "c" (codes "nal.")) = record {
      named = record { line_named = refl; page_named = refl };
      no_pair = refl;
      no_forward = refl;
    } in
    (un, (ux, (ub, (uc, tt))))

link_hyphen_pairs-Agree_example : Agree (select is_substantive (link_hyphen_pairs always broken))
link_hyphen_pairs-Agree_example = link_hyphen_pairs-Agree always broken broken-IsUnlinked

abbrev partners : List LineManifest → List (Option String)
partners [] = []
partners (l ∷ ls) = forward_partner_id l ∷ partners ls

-- The pass finds the chain over the blank line.
link_hyphen_pairs_test :
    partners (link_hyphen_pairs always broken) ≡ some "b" ∷ none ∷ some "c" ∷ none ∷ []
unfolding link_hyphen_pairs forward_partner_id link_pair
link_hyphen_pairs_test = refl

abbrev tail_line : LineManifest
tail_line = opening "a" "b" (codes "inter-")

abbrev head_line : LineManifest
head_line = middle "b" "a" "c" (codes "natio-")

tail_continues : forward_partner_id tail_line ≡ some "b"
unfolding forward_partner_id
tail_continues = refl

head_follows : wants_backward head_line.hyphen_role ≡ true
unfolding wants_backward
head_follows = refl

split_forward_link-IsSevered_example :
    (s : Severance) × (split_forward_link tail_line head_line ≡ some s)
    × IsSevered tail_line head_line s
split_forward_link-IsSevered_example =
    split_forward_link-IsSevered tail_line head_line head_follows tail_continues
