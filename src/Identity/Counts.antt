-- ===== src/Identity/Counts.antt =====
-- What the counters of core/identity.py say of the identifiers that they counted.
use corrigenda.Base.{
  ℕ, suc, ◌+◌, ◌≤◌, ◌≡◌, refl, Option, none, some, List, [], ◌∷◌, ◌++◌, String, str_eq, eq_iff,
  lookup, assign, if◌then◌else◌, arith,
}
use corrigenda.Manifest.{PageManifest}
use corrigenda.Identity.{
  Counter, Kind, Problem, or_none, tally, count_ids, duplicates, format_duplicates, real_problems,
  raise_if_duplicates, ids_of_pages, line_ids_on, block_problems, ensure_unique_identities,
}

-- How often an identifier stands in a list.
unfoldable pub occurrences : String → List String → ℕ
occurrences i [] = 0
occurrences i (j ∷ ids) = let rest = occurrences i ids in if str_eq j i then suc rest else rest

pub occurrences-append :
    (i : String) (xs ys : List String)
    → occurrences i (xs ++ ys) ≡ occurrences i xs + occurrences i ys
unfolding occurrences
occurrences-append i [] ys = omega arith
occurrences-append i (j ∷ xs) ys = ground (arith, occurrences-append i xs ys)

pub lookup-assign {ℓ} :
    {A : Type ℓ} (i j : String) (a : A) (d : List (String × A))
    → lookup j (assign i a d) ≡ (if str_eq i j then some a else lookup j d)
unfolding lookup assign
lookup-assign i j a [] = refl
lookup-assign i j a ((k, b) ∷ d) =
    ground (arith, eq_iff k i, eq_iff k j, eq_iff i j, lookup-assign i j a d)

lookup-tally :
    (i j : String) (counts : Counter)
    → or_none (lookup j (tally i counts))
      ≡ (if str_eq i j then suc (or_none (lookup j counts)) else or_none (lookup j counts))
unfolding tally or_none
lookup-tally i j counts =
    ground (arith, lookup-assign i j (suc (or_none (lookup i counts))) counts, eq_iff i j)

count_ids-occurrences :
    (ids : List String) (j : String) (counts : Counter)
    → or_none (lookup j (count_ids ids counts)) ≡ or_none (lookup j counts) + occurrences j ids
unfolding count_ids occurrences
count_ids-occurrences [] j counts = omega arith
count_ids-occurrences (i ∷ ids) j counts =
    ground (arith, count_ids-occurrences ids j (tally i counts), lookup-tally i j counts)

duplicates-nil :
    (j : String) (counts : Counter) → duplicates counts ≡ [] → or_none (lookup j counts) ≤ 1
unfolding duplicates lookup or_none
duplicates-nil j [] e = omega arith
duplicates-nil j ((i, n) ∷ counts) e = ground (arith, duplicates-nil j counts)

format_duplicates-nil :
    (kind : Kind) (counts : Counter) → format_duplicates kind counts ≡ none → duplicates counts ≡ []
unfolding format_duplicates
format_duplicates-nil kind counts e = ground arith

pub format_duplicates-none :
    (kind : Kind) (ids : List String) (j : String)
    → format_duplicates kind (count_ids ids []) ≡ none
    → occurrences j ids ≤ 1
unfolding lookup or_none
format_duplicates-none kind ids j e = omega (
  arith,
  duplicates-nil j (count_ids ids []) (format_duplicates-nil kind (count_ids ids []) e),
  count_ids-occurrences ids j [],
)

real_problems-last :
    (problems : List (Option Problem)) (last : Option Problem)
    → real_problems (problems ++ last ∷ []) ≡ []
    → last ≡ none
unfolding real_problems
real_problems-last [] none e = refl
real_problems-last [] (some p) e = absurd (cc)
real_problems-last (none ∷ problems) last e = real_problems-last problems last e
real_problems-last (some p ∷ problems) last e = absurd (cc)

raise_if_duplicates-none :
    (name : String) (problems : List (Option Problem))
    → raise_if_duplicates name problems ≡ none
    → real_problems problems ≡ []
unfolding raise_if_duplicates
raise_if_duplicates-none name problems e = ground arith

-- Files whose identities pass repeat no line identifier.
pub ensure_unique_identities-none :
    (pages : List PageManifest) (name j : String)
    → ensure_unique_identities pages name ≡ none
    → occurrences j (line_ids_on pages) ≤ 1
unfolding ensure_unique_identities
ensure_unique_identities-none pages name j e =
    let before =
      format_duplicates Kind.page_ids (count_ids (ids_of_pages pages) []) ∷ block_problems pages in
    let last = format_duplicates Kind.line_ids (count_ids (line_ids_on pages) []) in
    format_duplicates-none Kind.line_ids (line_ids_on pages) j
      (real_problems-last before last (raise_if_duplicates-none name (before ++ last ∷ []) e))
