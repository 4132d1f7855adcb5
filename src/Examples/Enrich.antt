-- ===== src/Examples/Enrich.antt =====
-- Examples for Enrich (core/hyphenation.py, `enrich_chunk_lines`).
use corrigenda.Base.{◌≡◌, refl, true, none, some, Bool, List, [], ◌∷◌, Option, codes, map, false}
use corrigenda.Manifest.{LineManifest, HyphenRole}
use corrigenda.Enrich.{LineContext, enrich_chunk_lines}
use corrigenda.Examples.Samples.{fresh, opening, closing}

-- "a" continues on "b"; "c" ends on a break mark and has no partner.
abbrev page_lines : List LineManifest
page_lines =
    opening "a" "b" (codes "the inter-")
    ∷ closing "b" "a" (codes "national end")
    ∷ record (fresh "c" (codes "an ex-")) { hyphen_role = HyphenRole.part1 }
    ∷ []

abbrev next_join : LineContext → Option Bool
next_join context = context.hyphen_join_with_next

-- A join is announced where there is a link.
announced :
    map next_join (enrich_chunk_lines page_lines false [] page_lines) ≡ some true ∷ none ∷ none ∷ []
unfolding enrich_chunk_lines
announced = refl

abbrev is_candidate : LineContext → Option Bool
is_candidate context = context.hyphen_candidate

-- The break mark is, on every line that has a role.
candidates :
    map is_candidate (enrich_chunk_lines page_lines false [] page_lines)
    ≡ some true ∷ some true ∷ some true ∷ []
unfolding enrich_chunk_lines
candidates = refl
