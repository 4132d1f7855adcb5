-- ===== src/Acceptance/Settled.antt =====
-- The reverts of core/acceptance.py: what stands in the document after them.
use corrigenda.Base.{
  ◌≡◌, refl, sym, ap, ◌∙◌, inl, inr, Option, some, List, [], ◌∷◌, Text, Bool-cases, if◌then◌else◌,
  arith,
}
use corrigenda.Manifest.{LineManifest, LineStatus, LineRef, PageManifest, line_ref, ref_eq}
use corrigenda.Decide.{Traces}
use corrigenda.Units.Groups.{at_ref}
use corrigenda.Guards.{Reverts, is_flagged}
use corrigenda.Acceptance.{revert_line, revert_lines, revert_pages, revert_all}

-- A line put back at its source.
abbrev pub source_line : LineManifest → LineManifest
source_line lm = record lm { corrected_text = some lm.ocr_text; status = LineStatus.fallback }

module _ (f : LineManifest → LineManifest) where
  unfoldable pub map_lines : List LineManifest → List LineManifest
  map_lines [] = []
  map_lines (lm ∷ lines) = f lm ∷ map_lines lines

  unfoldable pub map_pages : List PageManifest → List PageManifest
  unfolding map_lines
  map_pages [] = []
  map_pages (p ∷ pages) = record p { lines = map_lines p.lines } ∷ map_pages pages

map_lines-map_lines :
    (g f h : LineManifest → LineManifest) (lines : List LineManifest)
    → ((lm : LineManifest) → g (f lm) ≡ h lm)
    → map_lines g (map_lines f lines) ≡ map_lines h lines
unfolding map_lines
map_lines-map_lines g f h [] e = refl
map_lines-map_lines g f h (lm ∷ lines) e = λ i. e lm i ∷ map_lines-map_lines g f h lines e i

pub map_pages-map_pages :
    (g f h : LineManifest → LineManifest) (pages : List PageManifest)
    → ((lm : LineManifest) → g (f lm) ≡ h lm)
    → map_pages g (map_pages f pages) ≡ map_pages h pages
unfolding map_pages
map_pages-map_pages g f h [] e = refl
map_pages-map_pages g f h (p ∷ pages) e = λ i.
    record p { lines = map_lines-map_lines g f h p.lines e i } ∷ map_pages-map_pages g f h pages e i

map_lines_same : (lines : List LineManifest) → map_lines (λ lm. lm) lines ≡ lines
unfolding map_lines
map_lines_same [] = refl
map_lines_same (lm ∷ lines) = ap (λ t. lm ∷ t) (map_lines_same lines)

pub map_pages_same : (pages : List PageManifest) → map_pages (λ lm. lm) pages ≡ pages
unfolding map_pages
map_pages_same [] = refl
map_pages_same (p ∷ pages) =
    λ i. record p { lines = map_lines_same p.lines i } ∷ map_pages_same pages i

settle_one : LineRef → LineManifest → LineManifest
settle_one r lm = if ref_eq r (line_ref lm) then source_line lm else lm

-- What the reverts make of a line.
unfoldable pub settled : Reverts → LineManifest → LineManifest
settled reverts lm = if is_flagged (line_ref lm) reverts then source_line lm else lm

revert_line-settle_one :
    (r : LineRef) (reason : Text) (lm : LineManifest) (traces : Option Traces)
    → (revert_line r reason lm traces).0 ≡ settle_one r lm
unfolding revert_line settle_one
revert_line-settle_one r reason lm traces = elim (Bool-cases (ref_eq r (line_ref lm))) [
  | inl same ↦ rw (same, revert_line, settle_one)
  | inr other ↦ rw (other, revert_line, settle_one)
]

revert_lines-map :
    (r : LineRef) (reason : Text) (lines : List LineManifest) (traces : Option Traces)
    → (revert_lines r reason lines traces).0 ≡ map_lines (settle_one r) lines
unfolding revert_lines map_lines
revert_lines-map r reason [] traces = refl
revert_lines-map r reason (lm ∷ lines) traces = λ i.
    revert_line-settle_one r reason lm traces i
    ∷ revert_lines-map r reason lines (revert_line r reason lm traces).1 i

revert_pages-map :
    (r : LineRef) (reason : Text) (pages : List PageManifest) (traces : Option Traces)
    → (revert_pages r reason pages traces).0 ≡ map_pages (settle_one r) pages
unfolding revert_pages map_pages
revert_pages-map r reason [] traces = refl
revert_pages-map r reason (p ∷ pages) traces = λ i.
    record p { lines = revert_lines-map r reason p.lines traces i }
    ∷ revert_pages-map r reason pages (revert_lines r reason p.lines traces).1 i

settled-settle_one :
    (r : LineRef) (reason : Text) (rest : Reverts) (lm : LineManifest)
    → settled rest (settle_one r lm) ≡ settled ((r, reason) ∷ rest) lm
unfolding settled settle_one is_flagged line_ref at_ref
settled-settle_one r reason rest lm = ground arith

pub revert_all-map :
    (reverts : Reverts) (pages : List PageManifest) (traces : Option Traces)
    → (revert_all reverts pages traces).pages ≡ map_pages (settled reverts) pages
unfolding revert_all settled is_flagged at_ref
revert_all-map [] pages traces = sym (map_pages_same pages)
revert_all-map ((r, reason) ∷ rest) pages traces =
    let (pages', traces') = revert_pages r reason pages traces in
    revert_all-map rest pages' traces'
    ∙ ap (map_pages (settled rest)) (revert_pages-map r reason pages traces)
    ∙ map_pages-map_pages (settled rest) (settle_one r) (settled ((r, reason) ∷ rest)) pages
        (settled-settle_one r reason rest)
