-- ===== src/Finalize/Decided.antt =====
-- `_finalize_document` of core/finalize.py as a whole: the decisions that a run ends with.
use corrigenda.Base.{
  Bool, true, false, ◌≡◌, refl, sym, ap, ◌∙◌, none, some, List, [], ◌∷◌, ◌++◌, map, All, arith,
}
use corrigenda.Floats.{Floats, Unicode}
use corrigenda.Policies.{GuardConfig}
use corrigenda.Manifest.{LineManifest, PageManifest, line_ref}
use corrigenda.Decide.{Traces}
use corrigenda.Hyphenation.{given_or}
use corrigenda.Reconcile.{is_fallback}
use corrigenda.Decisions.{
  LineDecision, is_pending, undecided_lines, undecided, line_decision, line_decisions,
  page_decisions, derive_decision_set,
}
use corrigenda.Acceptance.{
  Document, document_lines, entering, required_by, all_done, is_done, same_pass,
}
use corrigenda.Acceptance.Order.{canonical}
use corrigenda.Acceptance.Settled.{map_lines, map_pages}
use corrigenda.Finalize.{
  run_pass, run_passes, finalize_document, global_adjacency_pass, preserve_break_chars,
  loss_policy_pass,
}
use corrigenda.Finalize.Kept.{IsDecided, Keeps, passes-Keep}

undecided_lines-append :
    (xs ys : List LineManifest)
    → undecided_lines (xs ++ ys) ≡ undecided_lines xs ++ undecided_lines ys
unfolding undecided_lines
undecided_lines-append [] ys = refl
undecided_lines-append (lm ∷ xs) ys = ground (arith, undecided_lines-append xs ys)

undecided-lines :
    (pages : List PageManifest) → undecided pages ≡ undecided_lines (document_lines pages)
unfolding undecided document_lines undecided_lines
undecided-lines [] = refl
undecided-lines (p ∷ pages) =
    ap (λ t. undecided_lines p.lines ++ t) (undecided-lines pages)
    ∙ sym (undecided_lines-append p.lines (document_lines pages))

line_decisions-append :
    (traces : Traces) (xs ys : List LineManifest)
    → line_decisions traces (xs ++ ys) ≡ line_decisions traces xs ++ line_decisions traces ys
unfolding line_decisions
line_decisions-append traces [] ys = refl
line_decisions-append traces (lm ∷ xs) ys =
    ap (λ t. line_decision traces lm ∷ t) (line_decisions-append traces xs ys)

page_decisions-lines :
    (traces : Traces) (pages : List PageManifest)
    → page_decisions traces pages ≡ line_decisions traces (document_lines pages)
unfolding page_decisions document_lines line_decisions
page_decisions-lines traces [] = refl
page_decisions-lines traces (p ∷ pages) =
    ap (λ t. line_decisions traces p.lines ++ t) (page_decisions-lines traces pages)
    ∙ sym (line_decisions-append traces p.lines (document_lines pages))

map_lines-append :
    (f : LineManifest → LineManifest) (xs ys : List LineManifest)
    → map_lines f (xs ++ ys) ≡ map_lines f xs ++ map_lines f ys
unfolding map_lines
map_lines-append f [] ys = refl
map_lines-append f (lm ∷ xs) ys = ap (λ t. f lm ∷ t) (map_lines-append f xs ys)

pub document_lines-map_pages :
    (f : LineManifest → LineManifest) (pages : List PageManifest)
    → document_lines (map_pages f pages) ≡ map_lines f (document_lines pages)
unfolding document_lines map_pages map_lines
document_lines-map_pages f [] = refl
document_lines-map_pages f (p ∷ pages) =
    ap (λ t. map_lines f p.lines ++ t) (document_lines-map_pages f pages)
    ∙ sym (map_lines-append f p.lines (document_lines pages))

undecided_lines-nil :
    (f : LineManifest → LineManifest) (lines : List LineManifest)
    → ((lm : LineManifest) → Keeps lm (f lm))
    → All IsDecided lines
    → undecided_lines (map_lines f lines) ≡ []
unfolding undecided_lines map_lines
undecided_lines-nil f [] kept d = refl
undecided_lines-nil f (lm ∷ lines) kept d =
    let here = ((kept lm).still_decided d.0).terminal in
    rw here (undecided_lines-nil f lines kept d.1)

-- The decisions `ds` on the lines of a document: one for each line, in the order of the lines, each
-- with a terminal status, and with the source text where it is FALLBACK.
pub record IsFinal (lines : List LineManifest) (ds : List LineDecision) : Type 0 where
  pub refs : map (λ x. x.ref) ds ≡ map line_ref lines
  pub sources : map (λ x. x.source_text) ds ≡ map (λ lm. lm.ocr_text) lines
  pub terminal : All (λ x. is_pending x.status ≡ false) ds
  pub honest : All (λ x. is_fallback x.status ≡ true → x.final_text ≡ x.source_text) ds

line_decisions-IsFinal :
    (traces : Traces) (f : LineManifest → LineManifest) (lines : List LineManifest)
    → ((lm : LineManifest) → Keeps lm (f lm))
    → All IsDecided lines
    → IsFinal lines (line_decisions traces (map_lines f lines))
unfolding line_decisions map_lines line_decision given_or
line_decisions-IsFinal traces f [] kept d = record {
  refs = refl;
  sources = refl;
  terminal = tt;
  honest = tt;
}
line_decisions-IsFinal traces f (lm ∷ lines) kept d =
    let k = kept lm in
    let here = k.still_decided d.0 in
    let rest = line_decisions-IsFinal traces f lines kept d.1 in
    record {
      refs = λ i. k.same_ref i ∷ rest.refs i;
      sources = λ i. k.same_source i ∷ rest.sources i;
      terminal = (here.terminal, rest.terminal);
      honest = (λ h. ap (λ t. given_or t (f lm).ocr_text) (here.fallen h), rest.honest);
    }

derive_decision_set-some :
    (pages : List PageManifest) (traces : Traces)
    → undecided pages ≡ []
    → derive_decision_set pages traces ≡ some (page_decisions traces pages)
unfolding derive_decision_set
derive_decision_set-some pages traces e =
    ap (λ t. elim t [ [] ↦ some (page_decisions traces pages) | r ∷ rs ↦ none ]) e

module _ (fl : Floats) (uni : Unicode) (config : GuardConfig fl) (strict : Bool)
    (d : Document) where
  abbrev pub finalized : Document
  finalized =
      loss_policy_pass strict
        (preserve_break_chars uni.is_alpha (global_adjacency_pass fl uni config d))

  -- The order token lets the three passes through.
  run_passes-some :
      run_passes fl uni config strict d ≡ some (record { done = canonical; document = finalized })
  unfolding run_passes run_pass entering required_by all_done is_done same_pass
  run_passes-some = refl

  finalize_document-some :
      undecided finalized.pages ≡ []
      → finalize_document fl uni config strict d
        ≡ some (page_decisions (given_or finalized.traces []) finalized.pages)
  unfolding finalize_document
  finalize_document-some e = derive_decision_set-some finalized.pages _ e

  -- Where each line of a document has a decision when the passes begin, and a line that fell back
  -- carries its source text, finalising the document never fails, under either loss policy, and gives
  -- one decision for each line, in the order of the lines, with the line's reference and source
  -- text. Each decision is terminal, and one with the status FALLBACK gives the line's source text.
  pub finalize_document-IsFinal :
      All IsDecided (document_lines d.pages)
      → (ds : List LineDecision) × (finalize_document fl uni config strict d ≡ some ds)
        × IsFinal (document_lines d.pages) ds
  finalize_document-IsFinal decided =
      let k = passes-Keep fl uni config strict d in
      let lines : document_lines finalized.pages ≡ map_lines k.change (document_lines d.pages) =
        ap document_lines k.changed ∙ document_lines-map_pages k.change d.pages in
      let none_left : undecided finalized.pages ≡ [] =
        undecided-lines finalized.pages
        ∙ ap undecided_lines lines
        ∙ undecided_lines-nil k.change (document_lines d.pages) k.kept decided in
      (
        page_decisions (given_or finalized.traces []) finalized.pages,
        finalize_document-some none_left,
        rw (page_decisions-lines (given_or finalized.traces []) finalized.pages) (
            rw lines (
              line_decisions-IsFinal (given_or finalized.traces []) k.change
                (document_lines d.pages) k.kept decided)),
      )
