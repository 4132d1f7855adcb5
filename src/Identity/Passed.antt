-- ===== src/Identity/Passed.antt =====
-- What a document is whose identities pass the checks of core/identity.py and core/preflight.py.
use mathlib.Core.Path.{subst}
use mathlib.Core.Option.{none-ne-some, some-injective}
use corrigenda.Base.{
  ℕ, suc, ◌+◌, ◌≤◌, ◌≡◌, refl, sym, ap, ◌∙◌, inl, inr, none, some, List, [], ◌∷◌, ◌++◌, String,
  str_eq, eq_iff, lookup, assign, All, append-nil, append_assoc, Bool-cases, Option-cases,
  if◌then◌else◌, arith,
}
use corrigenda.Manifest.{LineManifest, LineRef, PageManifest, line_ref, ref_eq}
use corrigenda.Units.Dict.{ref_eq_refl, HasOtherRef, IsApart}
use corrigenda.Acceptance.{document_lines}
use corrigenda.Identity.{
  ids_of_lines, line_ids_on, PagesByFile, add_page, group_pages, check_files, page_ids_across,
  ensure_unique_page_ids_across_files, ensure_unique_identities, check_identities,
}
use corrigenda.Identity.Counts.{
  occurrences, occurrences-append, lookup-assign, ensure_unique_identities-none,
}

-- How often a reference names a line.
unfoldable lines_with : LineRef → List LineManifest → ℕ
lines_with r [] = 0
lines_with r (lm ∷ lines) =
    let rest = lines_with r lines in if ref_eq (line_ref lm) r then suc rest else rest

lines_with-append :
    (r : LineRef) (xs ys : List LineManifest)
    → lines_with r (xs ++ ys) ≡ lines_with r xs + lines_with r ys
unfolding lines_with
lines_with-append r [] ys = omega arith
lines_with-append r (lm ∷ xs) ys = ground (arith, lines_with-append r xs ys)

lines_with-zero :
    (r : LineRef) (lines : List LineManifest) → lines_with r lines ≡ 0 → All (HasOtherRef r) lines
unfolding lines_with
lines_with-zero r [] e = tt
lines_with-zero r (lm ∷ lines) e = elim (Bool-cases (ref_eq (line_ref lm) r)) [
  | inl here ↦ absurd (ground arith)
  | inr other ↦ (other, lines_with-zero r lines (ground arith))
]

unique-IsApart :
    (lines : List LineManifest) → ((r : LineRef) → lines_with r lines ≤ 1) → IsApart lines
unfolding lines_with
unique-IsApart [] unique = tt
unique-IsApart (lm ∷ lines) unique = (
  lines_with-zero (line_ref lm) lines
      (ground (arith, unique (line_ref lm), ref_eq_refl (line_ref lm))),
  unique-IsApart lines (λ r. ground (arith, unique r)),
)

-- A page's lines name the page.
abbrev IsOn : String → LineManifest → Type 0
IsOn page_id lm = lm.page_id ≡ page_id

abbrev pub IsHome : PageManifest → Type 0
IsHome p = All (IsOn p.page_id) p.lines

on_page :
    (r : LineRef) (page_id : String) (lines : List LineManifest)
    → All (IsOn page_id) lines
    → lines_with r lines
      ≤ (if str_eq page_id r.page_id then occurrences r.line_id (ids_of_lines lines) else 0)
unfolding lines_with occurrences ids_of_lines line_ref
on_page r page_id [] on = ground arith
on_page r page_id (lm ∷ lines) (on, ons) =
    ground
      (arith, on_page r page_id lines ons, eq_iff lm.page_id r.page_id, eq_iff page_id r.page_id)

-- The pages of one file, in the order of the document.
in_file : String → List PageManifest → List PageManifest
in_file f [] = []
in_file f (p ∷ pages) =
    let rest = in_file f pages in if str_eq p.source_file f then p ∷ rest else rest

-- A page of this name is a page of this file.
abbrev IsSited : String → String → PageManifest → Type 0
IsSited page_id f p = p.page_id ≡ page_id → p.source_file ≡ f

document_bound :
    (r : LineRef) (f : String) (pages : List PageManifest)
    → All IsHome pages
    → All (IsSited r.page_id f) pages
    → lines_with r (document_lines pages) ≤ occurrences r.line_id (line_ids_on (in_file f pages))
unfolding document_lines lines_with in_file line_ids_on occurrences
document_bound r f [] home sited = omega arith
document_bound r f (p ∷ pages) (home, homes) (sited, siteds) =
    elim (Bool-cases (str_eq p.source_file f)) [
      | inl here ↦ rw here (
          ground (
            arith,
            lines_with-append r p.lines (document_lines pages),
            on_page r p.page_id p.lines home,
            occurrences-append r.line_id (ids_of_lines p.lines) (line_ids_on (in_file f pages)),
            document_bound r f pages homes siteds,
          ))
      | inr other ↦ rw other (
          ground (
            arith,
            eq_iff p.source_file f,
            eq_iff p.page_id r.page_id,
            sited,
            lines_with-append r p.lines (document_lines pages),
            on_page r p.page_id p.lines home,
            document_bound r f pages homes siteds,
          ))
    ]

-- The files' groups.
group_at : String → PagesByFile → List PageManifest
group_at f [] = []
group_at f ((g, pages) ∷ groups) = if str_eq g f then pages else group_at f groups

group_at-add_page :
    (f : String) (p : PageManifest) (groups : PagesByFile)
    → group_at f (add_page p groups)
      ≡ (if str_eq p.source_file f then group_at f groups ++ p ∷ [] else group_at f groups)
unfolding group_at add_page
group_at-add_page f p [] = refl
group_at-add_page f p ((g, pages) ∷ groups) = ground (
  arith,
  group_at-add_page f p groups,
  eq_iff g f,
  eq_iff p.source_file f,
  eq_iff g p.source_file,
)

group_at-group_pages :
    (f : String) (pages : List PageManifest) (groups : PagesByFile)
    → group_at f (group_pages pages groups) ≡ group_at f groups ++ in_file f pages
unfolding group_pages in_file
group_at-group_pages f [] groups = sym (append-nil (group_at f groups))
group_at-group_pages f (p ∷ pages) groups =
    group_at-group_pages f pages (add_page p groups) ∙ elim (Bool-cases (str_eq p.source_file f)) [
      | inl here ↦
          let grown : group_at f (add_page p groups) ≡ group_at f groups ++ p ∷ [] =
            group_at-add_page f p groups ∙ rw here refl in
          rw here (
            ap (λ t. t ++ in_file f pages) grown
            ∙ append_assoc (group_at f groups) (p ∷ []) (in_file f pages))
      | inr other ↦
          let same : group_at f (add_page p groups) ≡ group_at f groups =
            group_at-add_page f p groups ∙ rw other refl in
          rw other (ap (λ t. t ++ in_file f pages) same)
    ]

check_files-cons :
    (g : String) (pages : List PageManifest) (groups : PagesByFile)
    → check_files ((g, pages) ∷ groups) ≡ none
    → (ensure_unique_identities pages g ≡ none) × (check_files groups ≡ none)
unfolding check_files
check_files-cons g pages groups e = ground arith

check_files-none :
    (f j : String) (groups : PagesByFile)
    → check_files groups ≡ none
    → occurrences j (line_ids_on (group_at f groups)) ≤ 1
unfolding group_at occurrences line_ids_on
check_files-none f j [] e = omega arith
check_files-none f j ((g, pages) ∷ groups) e =
    let (passed, rest) = check_files-cons g pages groups e in
    elim (Bool-cases (str_eq g f)) [
      | inl here ↦ rw here (ensure_unique_identities-none pages g j passed)
      | inr other ↦ rw other (check_files-none f j groups rest)
    ]

across-new :
    (p : PageManifest) (pages : List PageManifest) (seen : List (String × String))
    → lookup p.page_id seen ≡ none
    → page_ids_across (p ∷ pages) seen ≡ none
    → page_ids_across pages (assign p.page_id p.source_file seen) ≡ none
unfolding page_ids_across
across-new p pages seen new e = ground arith

across-known :
    (p : PageManifest) (pages : List PageManifest) (seen : List (String × String)) (first : String)
    → lookup p.page_id seen ≡ some first
    → page_ids_across (p ∷ pages) seen ≡ none
    → (first ≡ p.source_file) × (page_ids_across pages seen ≡ none)
unfolding page_ids_across
across-known p pages seen first known e = ground (arith, eq_iff first p.source_file)

-- The file in which a page identifier was met first holds all pages of this name.
still_known :
    (new_id page_id file f : String) (seen : List (String × String))
    → lookup new_id seen ≡ none
    → lookup page_id seen ≡ some f
    → lookup page_id (assign new_id file seen) ≡ some f
still_known new_id page_id file f seen new known = elim (Bool-cases (str_eq new_id page_id)) [
  | inl same ↦
      absurd (
        none-ne-some f (sym new ∙ ap (λ k. lookup k seen) ((eq_iff new_id page_id).0 same) ∙ known))
  | inr other ↦ lookup-assign new_id page_id file seen ∙ rw other known
]

page_ids_across-IsSited :
    (page_id f : String) (pages : List PageManifest) (seen : List (String × String))
    → page_ids_across pages seen ≡ none
    → lookup page_id seen ≡ some f
    → All (IsSited page_id f) pages
page_ids_across-IsSited page_id f [] seen e known = tt
page_ids_across-IsSited page_id f (p ∷ pages) seen e known =
    elim (Option-cases (lookup p.page_id seen)) [
      | inl new ↦ (
        (λ same. absurd (none-ne-some f (sym new ∙ ap (λ k. lookup k seen) same ∙ known))),
        page_ids_across-IsSited page_id f pages _ (across-new p pages seen new e)
            (still_known p.page_id page_id p.source_file f seen new known),
      )
      | inr (first, there) ↦
          let (same_file, rest) = across-known p pages seen first there e in
          (
            (λ same.
                sym same_file
                ∙ some-injective _ _ (sym there ∙ ap (λ k. lookup k seen) same ∙ known)),
            page_ids_across-IsSited page_id f pages seen rest known,
          )
    ]

page_ids_across-file :
    (page_id : String) (pages : List PageManifest) (seen : List (String × String))
    → page_ids_across pages seen ≡ none
    → (f : String) × All (IsSited page_id f) pages
page_ids_across-file page_id [] seen e = ("", tt)
page_ids_across-file page_id (p ∷ pages) seen e = elim (Option-cases (lookup page_id seen)) [
  | inr (f, known) ↦ (f, page_ids_across-IsSited page_id f (p ∷ pages) seen e known)
  | inl unknown ↦ elim (Option-cases (lookup p.page_id seen)) [
    | inl new ↦
        let rest = across-new p pages seen new e in
        elim (Bool-cases (str_eq p.page_id page_id)) [
          | inl same ↦
              let first : lookup page_id (assign p.page_id p.source_file seen)
                  ≡ some p.source_file =
                lookup-assign p.page_id page_id p.source_file seen ∙ rw same refl in
              (
                p.source_file,
                ((λ _. refl), page_ids_across-IsSited page_id p.source_file pages _ rest first),
              )
          | inr other ↦
              let (f, sited) = page_ids_across-file page_id pages _ rest in
              (f, ((λ same. let equal = (eq_iff p.page_id page_id).1 same in absurd (cc)), sited))
        ]
    | inr (first, there) ↦
        let (f, sited) =
          page_ids_across-file page_id pages seen (across-known p pages seen first there e).1 in
        (
          f,
          (
            (λ same.
                absurd
                  (none-ne-some first (sym unknown ∙ ap (λ k. lookup k seen) (sym same) ∙ there))),
            sited,
          ),
        )
  ]
]

check_identities-cons :
    (pages : List PageManifest)
    → check_identities pages ≡ none
    → (check_files (group_pages pages []) ≡ none) × (page_ids_across pages [] ≡ none)
unfolding check_identities ensure_unique_page_ids_across_files
check_identities-cons pages e = ground arith

-- Where the identity checks at the pipeline's door let a document pass, and each line names the page
-- that it stands on, no two lines of the document have one reference, in whatever files and pages they
-- stand: the checks of single files and of page identifiers are enough for the index of lines.
pub check_identities-IsApart :
    (pages : List PageManifest)
    → All IsHome pages
    → check_identities pages ≡ none
    → IsApart (document_lines pages)
unfolding group_at
check_identities-IsApart pages home passed =
    let (files, across) = check_identities-cons pages passed in
    unique-IsApart (document_lines pages) (λ r.
      let (f, sited) = page_ids_across-file r.page_id pages [] across in
      let once : occurrences r.line_id (line_ids_on (in_file f pages)) ≤ 1 =
        subst (λ t. occurrences r.line_id (line_ids_on t) ≤ 1) (group_at-group_pages f pages [])
          (check_files-none f r.line_id (group_pages pages []) files) in
      omega (arith, document_bound r f pages home sited, once))
