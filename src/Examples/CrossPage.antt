-- ===== src/Examples/CrossPage.antt =====
-- Examples for CrossPage (core/pairing.py over a document).
use corrigenda.Base.{◌≡◌, refl, true, none, some, Bool, List, [], ◌∷◌, String, Option, codes, map}
use corrigenda.Manifest.{LineManifest, LineRef, PageManifest, HyphenRole}
use corrigenda.Acceptance.{document_lines}
use corrigenda.Pairing.{link_pair}
use corrigenda.CrossPage.{
  Parsed, unpaired_break_refs, disambiguate_page_ids, link_cross_page_hyphens, parsed_ids,
}
use corrigenda.Examples.Samples.{fresh}

abbrev page_of : String → List LineManifest → PageManifest
page_of i lines = record {
  page_id = i;
  source_file = "f.xml";
  page_index = 0;
  page_width = 100;
  page_height = 100;
  blocks = [];
  lines = lines;
}

abbrev always : LineManifest → LineManifest → Bool
always a b = true

-- A word broken from the first page onto the third, over a page with no text.
abbrev pages : List PageManifest
pages =
    page_of "p" (
      record (fresh "a" (codes "the inter-")) { hyphen_role = HyphenRole.part1 }
      ∷ fresh "blank" (codes " ")
      ∷ [])
    ∷ page_of "q" (fresh "b" (codes "  ") ∷ [])
    ∷ page_of "r" (record (fresh "c" (codes "national")) { page_id = "r" } ∷ [])
    ∷ []

abbrev pair_of : LineManifest → Option String
pair_of lm = lm.hyphen_pair_line_id

over_an_empty_page :
    map pair_of (document_lines (link_cross_page_hyphens always pages))
    ≡ some "c" ∷ none ∷ none ∷ some "a" ∷ []
unfolding link_cross_page_hyphens document_lines link_pair
over_an_empty_page = refl

abbrev ref_a : LineRef
ref_a = record { page_id = "p"; line_id = "a" }

-- Before the link "a" is a break with no partner, and after it nothing is.
unpaired_before : unpaired_break_refs pages ≡ ref_a ∷ []
unfolding unpaired_break_refs
unpaired_before = refl

unpaired_after : unpaired_break_refs (link_cross_page_hyphens always pages) ≡ []
unfolding unpaired_break_refs link_cross_page_hyphens link_pair
unpaired_after = refl

-- Two files with a page of one name.
abbrev parsed : Parsed
parsed = ("f.xml", page_of "p" [] ∷ page_of "q" [] ∷ []) ∷ ("g.xml", page_of "p" [] ∷ []) ∷ []

qualified : parsed_ids (disambiguate_page_ids parsed) ≡ "f.xml::p" ∷ "q" ∷ "g.xml::p" ∷ []
unfolding disambiguate_page_ids parsed_ids
qualified = refl
