-- ===== src/Identity.antt =====
-- core/identity.py: the checks that refuse a document with repeated identities, and the part of
-- `_preflight` in core/preflight.py that runs them on a manifest. `none` is a check that passes;
-- the words of an error's message are left out, what it names is kept.
pub mod Counts
pub mod Passed
use corrigenda.Base.{
  ℕ, suc, ◌+◌, Option, none, some, List, [], ◌∷◌, ◌++◌, String, str_eq, ltb, ◌==◌, lookup, assign,
  if◌then◌else◌,
}
use corrigenda.Manifest.{LineManifest, BlockManifest, PageManifest}

abbrev pub Counter : Type 0
Counter = List (String × ℕ)

-- What a message says is repeated, and how often each identifier stands there.
pub data Kind : Type 0 where
  page_ids line_ids elements : Kind
  block_ids : String → Kind

pub record Problem : Type 0 where
  pub kind : Kind
  pub repeated : Counter

pub data IdentityError : Type 0 where
  duplicate_ids : String → List Problem → IdentityError
  missing_ids : String → ℕ → IdentityError
  shared_page_id : String → String → String → IdentityError

-- `counts[i] += 1` of a Counter, and `Counter(ids)`.
unfoldable pub or_none : Option ℕ → ℕ
or_none none = 0
or_none (some n) = n

unfoldable pub tally : String → Counter → Counter
unfolding or_none lookup assign
tally i counts = assign i (suc (or_none (lookup i counts))) counts

unfoldable pub count_ids : List String → Counter → Counter
unfolding tally
count_ids [] counts = counts
count_ids (i ∷ ids) counts = count_ids ids (tally i counts)

unfoldable pub duplicates : Counter → Counter
duplicates [] = []
duplicates ((i, n) ∷ counts) =
    let rest = duplicates counts in if ltb 1 n then (i, n) ∷ rest else rest

-- `_format_duplicates`
unfoldable pub format_duplicates : Kind → Counter → Option Problem
unfolding duplicates
format_duplicates kind counts = elim (duplicates counts) [
  | [] ↦ none
  | d ∷ ds ↦ some (record { kind = kind; repeated = d ∷ ds })
]

-- `_raise_if_duplicates`
unfoldable pub real_problems : List (Option Problem) → List Problem
real_problems [] = []
real_problems (none ∷ problems) = real_problems problems
real_problems (some p ∷ problems) = p ∷ real_problems problems

unfoldable pub raise_if_duplicates : String → List (Option Problem) → Option IdentityError
unfolding real_problems
raise_if_duplicates source_name problems = elim (real_problems problems) [
  | [] ↦ none
  | p ∷ ps ↦ some (duplicate_ids source_name (p ∷ ps))
]

unfoldable pub ids_of_lines : List LineManifest → List String
ids_of_lines [] = []
ids_of_lines (lm ∷ lines) = lm.line_id ∷ ids_of_lines lines

unfoldable pub ids_of_blocks : List BlockManifest → List String
ids_of_blocks [] = []
ids_of_blocks (b ∷ blocks) = b.block_id ∷ ids_of_blocks blocks

unfoldable pub ids_of_pages : List PageManifest → List String
ids_of_pages [] = []
ids_of_pages (p ∷ pages) = p.page_id ∷ ids_of_pages pages

unfoldable pub line_ids_on : List PageManifest → List String
unfolding ids_of_lines
line_ids_on [] = []
line_ids_on (p ∷ pages) = ids_of_lines p.lines ++ line_ids_on pages

unfoldable pub block_problems : List PageManifest → List (Option Problem)
unfolding format_duplicates count_ids ids_of_blocks
block_problems [] = []
block_problems (p ∷ pages) =
    format_duplicates (Kind.block_ids p.page_id) (count_ids (ids_of_blocks p.blocks) [])
    ∷ block_problems pages

unfoldable pub ensure_unique_identities : List PageManifest → String → Option IdentityError
unfolding raise_if_duplicates format_duplicates block_problems count_ids ids_of_pages line_ids_on
ensure_unique_identities pages source_name = raise_if_duplicates source_name (
    format_duplicates Kind.page_ids (count_ids (ids_of_pages pages) [])
    ∷ (block_problems pages
        ++ format_duplicates Kind.line_ids (count_ids (line_ids_on pages) []) ∷ []))

-- `(i for i in raw_ids if i)`
unfoldable pub given_ids : List (Option String) → List String
given_ids [] = []
given_ids (none ∷ ids) = given_ids ids
given_ids (some i ∷ ids) = let rest = given_ids ids in if str_eq i "" then rest else i ∷ rest

unfoldable pub ensure_unique_element_ids : List (Option String) → String → Option IdentityError
unfolding raise_if_duplicates format_duplicates count_ids given_ids
ensure_unique_element_ids raw_ids source_name =
    raise_if_duplicates source_name
      (format_duplicates Kind.elements (count_ids (given_ids raw_ids) []) ∷ [])

unfoldable pub count_missing : List (Option String) → ℕ
count_missing [] = 0
count_missing (none ∷ ids) = suc (count_missing ids)
count_missing (some i ∷ ids) =
    let rest = count_missing ids in if str_eq i "" then suc rest else rest

unfoldable pub ensure_element_ids_present : List (Option String) → String → Option IdentityError
unfolding count_missing
ensure_element_ids_present raw_ids source_name =
    if count_missing raw_ids == 0
    then none
    else some (missing_ids source_name (count_missing raw_ids))

-- `seen` holds the file in which each page identifier was met first.
unfoldable pub page_ids_across : List PageManifest → List (String × String) → Option IdentityError
unfolding lookup assign
page_ids_across [] seen = none
page_ids_across (p ∷ pages) seen = elim (lookup p.page_id seen) [
  | none ↦ page_ids_across pages (assign p.page_id p.source_file seen)
  | some first ↦
      let rest = page_ids_across pages seen in
      if str_eq first p.source_file
      then rest
      else some (shared_page_id p.page_id first p.source_file)
]

unfoldable pub ensure_unique_page_ids_across_files : List PageManifest → Option IdentityError
unfolding page_ids_across
ensure_unique_page_ids_across_files pages = page_ids_across pages []

-- `pages_by_file.setdefault(page.source_file, []).append(page)`
abbrev pub PagesByFile : Type 0
PagesByFile = List (String × List PageManifest)

unfoldable pub add_page : PageManifest → PagesByFile → PagesByFile
add_page p [] = (p.source_file, p ∷ []) ∷ []
add_page p ((f, pages) ∷ rest) =
    let later = add_page p rest in
    if str_eq f p.source_file then (f, pages ++ p ∷ []) ∷ rest else (f, pages) ∷ later

unfoldable pub group_pages : List PageManifest → PagesByFile → PagesByFile
unfolding add_page
group_pages [] groups = groups
group_pages (p ∷ pages) groups = group_pages pages (add_page p groups)

unfoldable pub check_files : PagesByFile → Option IdentityError
unfolding ensure_unique_identities
check_files [] = none
check_files ((f, pages) ∷ groups) = elim (ensure_unique_identities pages f) [
  | none ↦ check_files groups
  | some e ↦ some e
]

-- The identity checks of `_preflight`.
unfoldable pub check_identities : List PageManifest → Option IdentityError
unfolding check_files group_pages ensure_unique_page_ids_across_files
check_identities pages = elim (check_files (group_pages pages [])) [
  | none ↦ ensure_unique_page_ids_across_files pages
  | some e ↦ some e
]
