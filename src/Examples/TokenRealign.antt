-- ===== src/Examples/TokenRealign.antt =====
-- Examples for TokenRealign (core/acceptance.py, `min_alignment_score`).
use corrigenda.Base.{ℕ, ◌≡◌, refl, none, some, List, [], ◌∷◌, Text, codes, map, Option, arith}
use corrigenda.Manifest.{LineManifest, LineStatus, line_ref}
use corrigenda.Alignment.{Scale}
use corrigenda.Acceptance.{Document, document_lines}
use corrigenda.Alignment.{centre, round_div}
use corrigenda.Pairing.{pair_ref, forward_ref}
use corrigenda.Units.Groups.{
  sort_by, groups_of, components_of, index_lines, add_member, root_of, find_root, follow_all,
  follow, self_parents, unite, parent_of, insert_by, group_of_members, order_of,
}
use corrigenda.TokenRealign.{SidecarEntry, token_realign}
use corrigenda.Units.Dict.{IsApart}
use corrigenda.TokenRealign.Gated.{IsGated, token_realign-IsGated}
use corrigenda.Examples.Samples.{fresh, opening, closing}

-- The lengths of the words below divide the unit.
abbrev scale : Scale
scale = record { one = 840; tolerance = 1; weak_match = 420; move_similarity = 672 }

abbrev shown : ℕ × ℕ → Text
shown score = codes "0.00"

abbrev corrected : LineManifest → Text → LineManifest
corrected lm t = record lm { corrected_text = some t; status = LineStatus.corrected }

-- In "a" a word moves, and "b" holds the other half of its broken word; "c" is corrected in place, and
-- "d" has lost its words.
abbrev document : Document
document = record {
  pages =
      record {
        page_id = "p";
        source_file = "f.xml";
        page_index = 0;
        page_width = 100;
        page_height = 100;
        blocks = [];
        lines =
            corrected (opening "a" "b" (codes "an ox in-")) (codes "ox an in-")
            ∷ corrected (closing "b" "a" (codes "slde it")) (codes "side it")
            ∷ corrected (fresh "c" (codes "tbe end")) (codes "the end")
            ∷ corrected (fresh "d" (codes "it is so")) (codes "gone")
            ∷ [];
      }
      ∷ [];
  traces = none;
}

document-IsApart : IsApart (document_lines document.pages)
unfolding document_lines line_ref
document-IsApart = ((refl, (refl, (refl, tt))), ((refl, (refl, tt)), ((refl, tt), (tt, tt))))

abbrev sidecar_texts : Option (Document × List SidecarEntry) → List Text
sidecar_texts none = []
sidecar_texts (some (after, sidecar)) = map (λ e. e.corrected_text) sidecar

-- "b" goes back with "a", and both changes are set aside, with that of "d".
set_aside :
    sidecar_texts (token_realign scale shown 504 document)
    ≡ codes "ox an in-" ∷ codes "gone" ∷ codes "side it" ∷ []
unfolding token_realign centre round_div sort_by groups_of components_of index_lines add_member
    root_of find_root follow_all follow forward_ref pair_ref self_parents unite parent_of insert_by
    group_of_members order_of
set_aside = refl

token_realign-IsGated_example :
    (result : Document × List SidecarEntry) × (token_realign scale shown 504 document ≡ some result)
    × IsGated scale shown 504 document result
token_realign-IsGated_example =
    token_realign-IsGated scale shown 504 document (omega arith) document-IsApart
