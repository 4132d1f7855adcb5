-- ===== src/Finalize/Strict.antt =====
-- The loss policy STRICT of core/acceptance.py: what it lets through.
use mathlib.Core.Path.{subst}
use corrigenda.Base.{
  append_assoc, append-nil, ℕ, Bool, true, false, ◌≡◌, ◌⊎◌, refl, sym, ap, ◌∙◌, inl, inr, none,
  some, List, [], ◌∷◌, ◌++◌, Text, words, text_eq_refl, length, All, All-append, Bool-cases,
  Option-cases, ◌==◌, ==_iff, if◌then◌else◌, arith,
}
use corrigenda.Manifest.{LineManifest, LineRef, PageManifest, line_ref}
use corrigenda.Units.Groups.{set_ref}
use corrigenda.Units.Dict.{ref_eq_refl, at_ref-set_ref}
use corrigenda.Guards.{Reverts, is_flagged}
use corrigenda.Acceptance.{Document, document_lines, apply_unit_reverts}
use corrigenda.Acceptance.Settled.{source_line, settled, map_lines}
use corrigenda.Acceptance.Atomic.{is_flagged-some, some-is_flagged, apply_unit_reverts-IsAtomic}
use corrigenda.Finalize.{
  changed_text, loss_reason, line_loss, loss_reverts, page_loss_reverts, loss_policy_pass,
  format_loss_pair_atomicity,
}
use corrigenda.Finalize.Decided.{document_lines-map_pages}

-- A line that the format can carry: if its markup has words and its text was changed, the text has
-- as many.
abbrev pub IsProjectable : LineManifest → Type 0
IsProjectable lm =
    (n : ℕ) (t : Text) → lm.word_count ≡ some n → changed_text lm ≡ some t → length (words t) ≡ n

none-if : (b : Bool) (reason : Text) → (if b then none else some reason) ≡ none → b ≡ true
none-if true reason e = refl
none-if false reason e = absurd (cc)

IsLossless : (lm : LineManifest) → line_loss lm ≡ none → IsProjectable lm
unfolding line_loss
IsLossless lm e n t is_n is_t = (==_iff _ n).0 (
    none-if (length (words t) == n) (loss_reason (length (words t)) n)
      (rw (is_n, is_t, line_loss) at e))

source_line-IsProjectable : (lm : LineManifest) → IsProjectable (source_line lm)
unfolding changed_text
source_line-IsProjectable lm n t is_n is_t =
    let same : changed_text (source_line lm) ≡ none = rw (text_eq_refl lm.ocr_text, changed_text) in
    absurd (cc)

set_ref-flagged :
    (q r : LineRef) (reason : Text) (reverts : Reverts)
    → is_flagged r reverts ≡ true
    → is_flagged r (set_ref q reason reverts) ≡ true
unfolding is_flagged
set_ref-flagged q r reason reverts h = ground (arith, at_ref-set_ref q r reason reverts)

set_ref-is_flagged :
    (q : LineRef) (reason : Text) (reverts : Reverts)
    → is_flagged q (set_ref q reason reverts) ≡ true
unfolding is_flagged
set_ref-is_flagged q reason reverts =
    ground (arith, at_ref-set_ref q q reason reverts, ref_eq_refl q)

-- The key of a line with a loss is flagged, and stays so.
loss_reverts-kept :
    (lines : List LineManifest) (reverts : Reverts) (r : LineRef)
    → is_flagged r reverts ≡ true
    → is_flagged r (loss_reverts lines reverts) ≡ true
unfolding loss_reverts
loss_reverts-kept [] reverts r h = h
loss_reverts-kept (lm ∷ lines) reverts r h = elim (Option-cases (line_loss lm)) [
  | inl fits ↦ rw (fits, loss_reverts) (loss_reverts-kept lines reverts r h)
  | inr (reason, lost) ↦
      rw (lost, loss_reverts)
        (loss_reverts-kept lines _ r (set_ref-flagged (line_ref lm) r reason reverts h))
]

abbrev IsCaught : Reverts → LineManifest → Type 0
IsCaught reverts lm = (line_loss lm ≡ none) ⊎ (is_flagged (line_ref lm) reverts ≡ true)

IsCaught-kept :
    (lines : List LineManifest) (others : List LineManifest) (reverts : Reverts)
    → All (IsCaught reverts) lines
    → All (IsCaught (loss_reverts others reverts)) lines
IsCaught-kept [] others reverts c = tt
IsCaught-kept (lm ∷ lines) others reverts (c, cs) = (
  elim c [
    | inl fits ↦ inl fits
    | inr flagged ↦ inr (loss_reverts-kept others reverts (line_ref lm) flagged)
  ],
  IsCaught-kept lines others reverts cs,
)

loss_reverts-fits :
    (lm : LineManifest) (lines : List LineManifest) (reverts : Reverts)
    → line_loss lm ≡ none
    → loss_reverts (lm ∷ lines) reverts ≡ loss_reverts lines reverts
unfolding loss_reverts
loss_reverts-fits lm lines reverts e = rw (e, loss_reverts)

loss_reverts-lost :
    (lm : LineManifest) (lines : List LineManifest) (reverts : Reverts) (reason : Text)
    → line_loss lm ≡ some reason
    → loss_reverts (lm ∷ lines) reverts ≡ loss_reverts lines (set_ref (line_ref lm) reason reverts)
unfolding loss_reverts
loss_reverts-lost lm lines reverts reason e = rw (e, loss_reverts)

loss_reverts-IsCaught :
    (lines : List LineManifest) (reverts : Reverts)
    → All (IsCaught (loss_reverts lines reverts)) lines
loss_reverts-IsCaught [] reverts = tt
loss_reverts-IsCaught (lm ∷ lines) reverts = elim (Option-cases (line_loss lm)) [
  | inl fits ↦
      subst (λ t. All (IsCaught t) (lm ∷ lines)) (sym (loss_reverts-fits lm lines reverts fits))
        (inl fits, loss_reverts-IsCaught lines reverts)
  | inr (reason, lost) ↦
      subst (λ t. All (IsCaught t) (lm ∷ lines))
        (sym (loss_reverts-lost lm lines reverts reason lost))
        (
          inr (
              loss_reverts-kept lines _ (line_ref lm)
                (set_ref-is_flagged (line_ref lm) reason reverts)),
          loss_reverts-IsCaught lines _,
        )
]

page_loss_reverts-IsCaught :
    (seen : List LineManifest) (pages : List PageManifest) (reverts : Reverts)
    → All (IsCaught reverts) seen
    → All (IsCaught (page_loss_reverts pages reverts)) (seen ++ document_lines pages)
unfolding page_loss_reverts document_lines
page_loss_reverts-IsCaught seen [] reverts c =
    subst (All (IsCaught reverts)) (sym (append-nil seen)) c
page_loss_reverts-IsCaught seen (p ∷ pages) reverts c =
    subst (All (IsCaught (page_loss_reverts pages (loss_reverts p.lines reverts))))
      (append_assoc seen p.lines (document_lines pages))
      (page_loss_reverts-IsCaught (seen ++ p.lines) pages (loss_reverts p.lines reverts) (
        All-append _ seen p.lines (IsCaught-kept seen p.lines reverts c)
          (loss_reverts-IsCaught p.lines reverts)))

settled_one :
    (reverts all : Reverts) (lm : LineManifest)
    → ((r : LineRef) → is_flagged r reverts ≡ true → is_flagged r all ≡ true)
    → IsCaught reverts lm
    → IsProjectable (settled all lm)
unfolding settled
settled_one reverts all lm more c = elim (Bool-cases (is_flagged (line_ref lm) all)) [
  | inl back ↦
      subst (λ b. IsProjectable (if b then source_line lm else lm)) (sym back)
        (source_line-IsProjectable lm)
  | inr stays ↦
      subst (λ b. IsProjectable (if b then source_line lm else lm)) (sym stays)
        (elim c [
          | inl fits ↦ IsLossless lm fits
          | inr flagged ↦ let gone = more (line_ref lm) flagged in absurd (cc)
        ])
]

settled-IsProjectable :
    (reverts all : Reverts) (lines : List LineManifest)
    → ((r : LineRef) → is_flagged r reverts ≡ true → is_flagged r all ≡ true)
    → All (IsCaught reverts) lines
    → All IsProjectable (map_lines (settled all) lines)
unfolding map_lines settled
settled-IsProjectable reverts all [] more c = tt
settled-IsProjectable reverts all (lm ∷ lines) more (c, cs) =
    (settled_one reverts all lm more c, settled-IsProjectable reverts all lines more cs)

-- After the pass, under STRICT, no line of the document has a changed text with another number of
-- words than its markup has, whichever lines fell back with their hyphen units on the way.
pub loss_policy_pass-IsProjectable :
    (d : Document) → All IsProjectable (document_lines (loss_policy_pass true d).pages)
unfolding loss_policy_pass
loss_policy_pass-IsProjectable d =
    let reverts = page_loss_reverts d.pages [] in
    let atomic = apply_unit_reverts-IsAtomic reverts format_loss_pair_atomicity d in
    let all = (apply_unit_reverts reverts format_loss_pair_atomicity d).0 in
    let lines = ap document_lines atomic.settles ∙ document_lines-map_pages (settled all) d.pages in
    rw lines (
      settled-IsProjectable reverts all (document_lines d.pages)
        (λ r h.
          let (x, there) = is_flagged-some r reverts h in
          some-is_flagged r all x (atomic.own r x there))
        (page_loss_reverts-IsCaught [] d.pages [] tt))
