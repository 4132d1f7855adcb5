-- ===== src/Units/Groups.antt =====
-- `derive_hyphen_groups` of core/units.py: hyphen units as the connected components of the lines'
-- links, by union-find with path halving. A dictionary is an association list in the order of
-- insertion, where a repeated key keeps its place and takes the later value.
use corrigenda.Base.{
  ℕ, zero, suc, Bool, true, false, not, ◌&&◌, ◌||◌, Option, none, some, List, [], ◌∷◌, ◌++◌, String,
  str_eq, length, leb, ltb, if◌then◌else◌,
}
use corrigenda.Manifest.{LineRef, LineManifest, line_ref, ref_eq, truthy}
use corrigenda.Pairing.{pair_ref, forward_ref}

pub record HyphenGroup : Type 0 where
  pub members : List LineRef
  pub spans_pages : Bool
  pub explicit : Bool
  pub complete : Bool

unfoldable pub ref_in : LineRef → List LineRef → Bool
ref_in r [] = false
ref_in r (q ∷ qs) = ref_eq r q || ref_in r qs

unfoldable pub at_ref {ℓ} : {A : Type ℓ} → LineRef → List (LineRef × A) → Option A
at_ref r [] = none
at_ref r ((q, a) ∷ d) = if ref_eq q r then some a else at_ref r d

unfoldable pub set_ref {ℓ} : {A : Type ℓ} → LineRef → A → List (LineRef × A) → List (LineRef × A)
set_ref r a [] = (r, a) ∷ []
set_ref r a ((q, b) ∷ d) = if ref_eq q r then (q, a) ∷ d else (q, b) ∷ set_ref r a d

-- `by_ref`, with `order` read off its lines.
unfoldable pub index_lines :
    List (LineRef × LineManifest) → List LineManifest → List (LineRef × LineManifest)
index_lines acc [] = acc
index_lines acc (lm ∷ lines) = index_lines (set_ref (line_ref lm) lm acc) lines

abbrev pub Parents : Type 0
Parents = List (LineRef × LineRef)

unfoldable pub self_parents : List (LineRef × LineManifest) → Parents
self_parents [] = []
self_parents ((r, lm) ∷ d) = (r, r) ∷ self_parents d

-- `parent[x]`; every reference that is looked up is a key.
unfoldable pub parent_of : Parents → LineRef → LineRef
parent_of parent x = elim (at_ref x parent) [ none ↦ x | some p ↦ p ]

-- `find`, which halves the path that it walks: the parents after it, and the root. A path has no
-- more steps than there are keys.
unfoldable pub find_root : ℕ → Parents → LineRef → Parents × LineRef
find_root zero parent x = (parent, x)
find_root (suc fuel) parent x =
    let p = parent_of parent x in
    let up = parent_of parent p in
    let on = find_root fuel (set_ref x up parent) up in if ref_eq p x then (parent, x) else on

unfoldable pub root_of : Parents → LineRef → Parents × LineRef
root_of parent x = find_root (length parent) parent x

-- `parent[find(a)] = find(b)`: the right side is evaluated first.
unfoldable pub unite : LineRef → LineRef → Parents → Parents
unite a b parent =
    let (after_b, root_b) = root_of parent b in
    let (after_a, root_a) = root_of after_b a in set_ref root_a root_b after_a

-- The parents, and the references with a link out of the lines given.
pub record Linking : Type 0 where
  pub parent : Parents
  pub unresolved : List LineRef

unfoldable pub follow : LineRef → Option LineRef → Linking → Linking
follow ref none linking = linking
follow ref (some partner) linking = elim (at_ref partner linking.parent) [
  | some p ↦ record linking { parent = unite ref partner linking.parent }
  | none ↦ record linking { unresolved = ref ∷ linking.unresolved }
]

unfoldable pub follow_all : List (LineRef × LineManifest) → Linking → Linking
follow_all [] linking = linking
follow_all ((ref, lm) ∷ d) linking =
    follow_all d (follow ref (forward_ref lm) (follow ref (pair_ref lm) linking))

abbrev pub Components : Type 0
Components = List (LineRef × List LineRef)

-- `components.setdefault(root, []).append(ref)`
unfoldable pub add_member : LineRef → LineRef → Components → Components
add_member root ref [] = (root, ref ∷ []) ∷ []
add_member root ref ((r, members) ∷ rest) =
    if ref_eq r root
    then (r, members ++ ref ∷ []) ∷ rest
    else (r, members) ∷ add_member root ref rest

unfoldable pub components_of : List (LineRef × LineManifest) → Parents → Components → Components
components_of [] parent acc = acc
components_of ((ref, lm) ∷ d) parent acc =
    let (after, root) = root_of parent ref in components_of d after (add_member root ref acc)

unfoldable pub order_of : List (LineRef × LineManifest) → LineRef → ℕ
order_of by_ref r = elim (at_ref r by_ref) [ none ↦ 0 | some lm ↦ lm.line_order_global ]

-- A stable sort by a key.
unfoldable pub insert_by {ℓ} : {A : Type ℓ} → (A → ℕ) → A → List A → List A
insert_by key x [] = x ∷ []
insert_by key x (y ∷ ys) = if leb (key x) (key y) then x ∷ y ∷ ys else y ∷ insert_by key x ys

unfoldable pub sort_by {ℓ} : {A : Type ℓ} → (A → ℕ) → List A → List A
sort_by key [] = []
sort_by key (x ∷ xs) = insert_by key x (sort_by key xs)

-- `_links_explicit`
unfoldable pub is_set : Option String → Bool
is_set o = elim (truthy o) [ none ↦ false | some i ↦ true ]

unfoldable pub links_explicit : LineManifest → Bool
links_explicit lm =
    not (is_set lm.hyphen_pair_line_id && not lm.hyphen_source_explicit)
    && not (is_set lm.hyphen_forward_pair_id && not lm.hyphen_forward_explicit)

unfoldable pub explicit_at : List (LineRef × LineManifest) → List LineRef → Bool
explicit_at by_ref [] = true
explicit_at by_ref (r ∷ rs) =
    (elim (at_ref r by_ref) [ none ↦ true | some lm ↦ links_explicit lm ]) && explicit_at by_ref rs

unfoldable pub some_other_page : String → List LineRef → Bool
some_other_page page [] = false
some_other_page page (r ∷ rs) = not (str_eq r.page_id page) || some_other_page page rs

unfoldable pub spans_pages_of : List LineRef → Bool
spans_pages_of [] = false
spans_pages_of (r ∷ rs) = some_other_page r.page_id rs

unfoldable pub any_in : List LineRef → List LineRef → Bool
any_in [] unresolved = false
any_in (r ∷ rs) unresolved = ref_in r unresolved || any_in rs unresolved

unfoldable pub group_of_members :
    List (LineRef × LineManifest) → List LineRef → List LineRef → HyphenGroup
group_of_members by_ref unresolved members =
    let ordered = sort_by (order_of by_ref) members in
    record {
      members = ordered;
      spans_pages = spans_pages_of ordered;
      explicit = explicit_at by_ref ordered;
      complete = not (any_in ordered unresolved);
    }

-- An unlinked line is not a group.
unfoldable pub groups_of :
    List (LineRef × LineManifest) → List LineRef → Components → List HyphenGroup
groups_of by_ref unresolved [] = []
groups_of by_ref unresolved ((root, members) ∷ rest) =
    let later = groups_of by_ref unresolved rest in
    if ltb (length members) 2 then later else (group_of_members by_ref unresolved members ∷ later)

unfoldable pub first_order : List (LineRef × LineManifest) → HyphenGroup → ℕ
first_order by_ref g = elim g.members [ [] ↦ 0 | r ∷ rs ↦ order_of by_ref r ]

unfoldable pub derive_hyphen_groups : List LineManifest → List HyphenGroup
derive_hyphen_groups lines =
    let by_ref = index_lines [] lines in
    let linking = follow_all by_ref (record { parent = self_parents by_ref; unresolved = [] }) in
    sort_by (first_order by_ref)
      (groups_of by_ref linking.unresolved (components_of by_ref linking.parent []))
