-- ===== src/Examples/Identity.antt =====
-- Examples for Identity (core/identity.py and the identity checks of core/preflight.py).
use corrigenda.Base.{◌≡◌, refl, none, some, List, [], ◌∷◌, String, codes}
use corrigenda.Manifest.{LineManifest, PageManifest}
use corrigenda.Acceptance.{document_lines}
use corrigenda.Units.Dict.{IsApart}
use corrigenda.Identity.{
  Kind, IdentityError, check_identities, ensure_unique_identities, ensure_unique_element_ids,
  ensure_element_ids_present,
}
use corrigenda.Identity.Passed.{check_identities-IsApart}
use corrigenda.Examples.Samples.{fresh}

abbrev line_on : String → String → LineManifest
line_on page i = record (fresh i (codes "text")) { page_id = page }

abbrev page_of : String → String → List LineManifest → PageManifest
page_of file i lines = record {
  page_id = i;
  source_file = file;
  page_index = 0;
  page_width = 100;
  page_height = 100;
  blocks = [];
  lines = lines;
}

-- Two files of one document use the same line identifiers, on pages of different names.
abbrev two_files : List PageManifest
two_files =
    page_of "f.xml" "p1" (line_on "p1" "a" ∷ line_on "p1" "b" ∷ [])
    ∷ page_of "g.xml" "p2" (line_on "p2" "a" ∷ [])
    ∷ page_of "f.xml" "p3" (line_on "p3" "c" ∷ [])
    ∷ []

two_files_pass : check_identities two_files ≡ none
unfolding check_identities
two_files_pass = refl

-- Page "p1" is in both files.
shared_page :
    check_identities (page_of "f.xml" "p1" [] ∷ page_of "g.xml" "p1" [] ∷ [])
    ≡ some (IdentityError.shared_page_id "p1" "f.xml" "g.xml")
unfolding check_identities
shared_page = refl

repeated_line :
    ensure_unique_identities
      (page_of "f.xml" "p1" (line_on "p1" "a" ∷ line_on "p1" "a" ∷ []) ∷ [])
      "f.xml"
    ≡ some (
        IdentityError.duplicate_ids "f.xml"
          (record { kind = Kind.line_ids; repeated = ("a", 2) ∷ [] } ∷ []))
unfolding ensure_unique_identities
repeated_line = refl

-- Elements without an identifier repeat nothing, and are refused where each needs one.
unnamed_elements :
    ensure_unique_element_ids (none ∷ some "" ∷ some "a" ∷ some "" ∷ []) "f.xml" ≡ none
unfolding ensure_unique_element_ids
unnamed_elements = refl

missing_elements :
    ensure_element_ids_present (none ∷ some "" ∷ some "a" ∷ []) "f.xml"
    ≡ some (IdentityError.missing_ids "f.xml" 2)
unfolding ensure_element_ids_present
missing_elements = refl

check_identities-IsApart_example : IsApart (document_lines two_files)
check_identities-IsApart_example =
    check_identities-IsApart two_files (((refl, (refl, tt))), ((refl, tt), ((refl, tt), tt)))
      two_files_pass
