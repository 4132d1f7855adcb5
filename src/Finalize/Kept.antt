-- ===== src/Finalize/Kept.antt =====
-- What the document-wide passes of core/finalize.py leave alone on a line.
use corrigenda.Base.{
  ℕ, Bool, true, false, ◌≡◌, refl, sym, ap, ◌∙◌, inl, inr, none, some, List, [], ◌∷◌, Text,
  text_eq_refl, Option-cases, if◌then◌else◌,
}
use corrigenda.Floats.{Floats, Unicode}
use corrigenda.Policies.{GuardConfig}
use corrigenda.Manifest.{LineManifest, PageManifest, line_ref}
use corrigenda.Decide.{renormalise}
use corrigenda.Reconcile.{is_fallback}
use corrigenda.Decisions.{is_pending}
use corrigenda.Guards.{Reverts}
use corrigenda.Acceptance.{Document, apply_unit_reverts, adjacent_duplicate_pair_atomicity}
use corrigenda.Acceptance.Settled.{
  source_line, settled, map_lines, map_pages, map_pages_same, map_pages-map_pages,
}
use corrigenda.Acceptance.Atomic.{apply_unit_reverts-IsAtomic}
use corrigenda.Finalize.{
  page_loss_reverts, format_loss_pair_atomicity, adjacency_reverts, changed_text, preserve_line,
  preserve_lines, preserve_pages, preserve_break_chars, global_adjacency_pass, loss_policy_pass,
}

-- A line that has a decision, and that carries its source text if it fell back.
pub record IsDecided (lm : LineManifest) : Type 0 where
  pub terminal : is_pending lm.status ≡ false
  pub fallen : is_fallback lm.status ≡ true → lm.corrected_text ≡ some lm.ocr_text

pub record Keeps (lm lm' : LineManifest) : Type 0 where
  pub same_ref : line_ref lm' ≡ line_ref lm
  pub same_source : lm'.ocr_text ≡ lm.ocr_text
  pub still_decided : IsDecided lm → IsDecided lm'

Keeps-refl : (lm : LineManifest) → Keeps lm lm
Keeps-refl lm = record { same_ref = refl; same_source = refl; still_decided = λ d. d }

source_line-Keeps : (lm : LineManifest) → Keeps lm (source_line lm)
unfolding line_ref is_pending
source_line-Keeps lm = record {
  same_ref = refl;
  same_source = refl;
  still_decided = λ d. record { terminal = refl; fallen = λ h. refl };
}

Keeps-if :
    (b : Bool) (lm x y : LineManifest) → Keeps lm x → Keeps lm y → Keeps lm (if b then x else y)
Keeps-if true lm x y p q = p
Keeps-if false lm x y p q = q

settled-Keeps : (reverts : Reverts) (lm : LineManifest) → Keeps lm (settled reverts lm)
unfolding settled
settled-Keeps reverts lm = Keeps-if _ lm _ _ (source_line-Keeps lm) (Keeps-refl lm)

-- A line that fell back is not respelled.
changed_text-source :
    (lm : LineManifest) → lm.corrected_text ≡ some lm.ocr_text → changed_text lm ≡ none
unfolding changed_text
changed_text-source lm e = rw (e, text_eq_refl lm.ocr_text)

preserve_line-Keeps :
    (is_alpha : ℕ → Bool) (lm : LineManifest) → Keeps lm (preserve_line is_alpha lm)
unfolding preserve_line renormalise line_ref
preserve_line-Keeps is_alpha lm = elim (Option-cases (changed_text lm)) [
  | inl same ↦ rw (same, preserve_line) (Keeps-refl lm)
  | inr (t, changed) ↦
      rw (changed, preserve_line)
        (record {
          same_ref = refl;
          same_source = refl;
          still_decided = λ d. record {
            terminal = d.terminal;
            fallen = λ h. let gone = changed_text-source lm (d.fallen h) in absurd (cc);
          };
        })
]

-- A document whose lines are those of another one, each with `Keeps`.
pub record KeepsPages (pages pages' : List PageManifest) : Type 0 where
  pub change : LineManifest → LineManifest
  pub changed : pages' ≡ map_pages change pages
  pub kept : (lm : LineManifest) → Keeps lm (change lm)

KeepsPages-trans : (a b c : List PageManifest) → KeepsPages a b → KeepsPages b c → KeepsPages a c
KeepsPages-trans a b c p q = record {
  change = λ lm. q.change (p.change lm);
  changed =
      q.changed
      ∙ ap (map_pages q.change) p.changed
      ∙ map_pages-map_pages q.change p.change _ a (λ lm. refl);
  kept = λ lm.
      let first = p.kept lm in
      let second = q.kept (p.change lm) in
      record {
        same_ref = second.same_ref ∙ first.same_ref;
        same_source = second.same_source ∙ first.same_source;
        still_decided = λ d. second.still_decided (first.still_decided d);
      };
}

preserve_lines-map :
    (is_alpha : ℕ → Bool) (lines : List LineManifest)
    → preserve_lines is_alpha lines ≡ map_lines (preserve_line is_alpha) lines
unfolding preserve_lines map_lines
preserve_lines-map is_alpha [] = refl
preserve_lines-map is_alpha (lm ∷ lines) =
    ap (λ t. preserve_line is_alpha lm ∷ t) (preserve_lines-map is_alpha lines)

preserve_pages-map :
    (is_alpha : ℕ → Bool) (pages : List PageManifest)
    → preserve_pages is_alpha pages ≡ map_pages (preserve_line is_alpha) pages
unfolding preserve_pages map_pages
preserve_pages-map is_alpha [] = refl
preserve_pages-map is_alpha (p ∷ pages) = λ i.
    record p { lines = preserve_lines-map is_alpha p.lines i } ∷ preserve_pages-map is_alpha pages i

reverts-Keep :
    (reverts : Reverts) (reason : Text) (d : Document)
    → KeepsPages d.pages (apply_unit_reverts reverts reason d).1.pages
reverts-Keep reverts reason d = record {
  change = settled (apply_unit_reverts reverts reason d).0;
  changed = (apply_unit_reverts-IsAtomic reverts reason d).settles;
  kept = settled-Keeps _;
}

pub preserve_break_chars-Keeps :
    (is_alpha : ℕ → Bool) (d : Document)
    → KeepsPages d.pages (preserve_break_chars is_alpha d).pages
unfolding preserve_break_chars
preserve_break_chars-Keeps is_alpha d = record {
  change = preserve_line is_alpha;
  changed = preserve_pages-map is_alpha d.pages;
  kept = preserve_line-Keeps is_alpha;
}

pub loss_policy_pass-Keeps :
    (strict : Bool) (d : Document) → KeepsPages d.pages (loss_policy_pass strict d).pages
unfolding loss_policy_pass
loss_policy_pass-Keeps true d =
    reverts-Keep (page_loss_reverts d.pages []) format_loss_pair_atomicity d
loss_policy_pass-Keeps false d = record {
  change = λ lm. lm;
  changed = sym (map_pages_same d.pages);
  kept = Keeps-refl;
}

-- The three passes, one after the other.
pub passes-Keep :
    (fl : Floats) (uni : Unicode) (config : GuardConfig fl) (strict : Bool) (d : Document)
    → KeepsPages d.pages
        (loss_policy_pass strict
          (preserve_break_chars uni.is_alpha (global_adjacency_pass fl uni config d))).pages
unfolding global_adjacency_pass
passes-Keep fl uni config strict d =
    KeepsPages-trans _ _ _
      (KeepsPages-trans _ _ _
        (reverts-Keep (adjacency_reverts fl uni config none [] [] d.pages)
          adjacent_duplicate_pair_atomicity d)
        (preserve_break_chars-Keeps uni.is_alpha _))
      (loss_policy_pass-Keeps strict _)
