-- ===== src/Examples/LineAcceptance.antt =====
-- Examples for LineAcceptance (core/acceptance.py, `_apply_line_acceptance`).
use corrigenda.Base.{
  ◌≡◌, refl, true, none, some, List, [], ◌∷◌, String, Text, codes, All, map, lookup, is_in, Option,
  text_eq,
}
use corrigenda.Manifest.{LineManifest, LineStatus, wants_forward}
use corrigenda.Marks.{ends_with_break_mark}
use corrigenda.Pairing.{pair_ref, forward_ref}
use corrigenda.Decide.{accept, fall_back}
use corrigenda.Guards.{check_line}
use corrigenda.Reconcile.{is_fallback}
use corrigenda.LineAcceptance.{line_at, Partners, apply_line_acceptance}
use corrigenda.LineAcceptance.Stores.{Beside}
use corrigenda.LineAcceptance.Outcomes.{IsTexted, Outcome, apply_line_acceptance-Outcome}
use corrigenda.LineAcceptance.Decided.{is_decided, is_line, apply_line_acceptance-is_decided}
use corrigenda.Examples.Samples.{fractions, default_guard, fresh, opening, closing}

-- "a" breaks a word whose second half is on no line of the page; "b" is an ordinary line; "c" breaks
-- a word over "d", which fell back already.
abbrev page_lines : List LineManifest
page_lines =
    opening "a" "gone" (codes "tbe inter-")
    ∷ record (fresh "b" (codes "tbe end")) { prev_line_id = some "a" }
    ∷ opening "c" "d" (codes "an ex-")
    ∷ record (closing "d" "c" (codes "ample")) {
      corrected_text = some (codes "ample");
      status = LineStatus.fallback;
    }
    ∷ []

abbrev answers : List (String × Text)
answers =
    ("a", codes "the internal")
    ∷ ("b", codes "the end")
    ∷ ("c", codes "an ex-")
    ∷ ("d", codes "amples")
    ∷ []

abbrev nobody : Partners
nobody r = none

abbrev chunk : List String
chunk = "a" ∷ "b" ∷ "c" ∷ "d" ∷ []

abbrev decision_of : LineManifest → Option Text × LineStatus
decision_of lm = (lm.corrected_text, lm.status)

-- "a" would lose its break mark, "b" is accepted, "c" follows its partner, and "d" stays.
abbrev expected : List (Option Text × LineStatus)
expected =
    (some (codes "tbe inter-"), LineStatus.fallback)
    ∷ (some (codes "the end"), LineStatus.corrected)
    ∷ (some (codes "an ex-"), LineStatus.fallback)
    ∷ (some (codes "ample"), LineStatus.fallback)
    ∷ []

decisions :
    map decision_of
      (apply_line_acceptance fractions default_guard nobody answers chunk page_lines none).0
    ≡ expected
unfolding apply_line_acceptance lookup wants_forward ends_with_break_mark fall_back pair_ref
    forward_ref check_line text_eq accept
decisions = refl

page_lines-IsTexted : All IsTexted page_lines
unfolding is_fallback
page_lines-IsTexted =
    ((λ e. absurd (cc)), ((λ e. absurd (cc)), ((λ e. absurd (cc)), ((λ e bare. absurd (cc)), tt))))

apply_line_acceptance-Outcome_example :
    Beside
      (Outcome fractions default_guard nobody answers page_lines)
      page_lines
      (apply_line_acceptance fractions default_guard nobody answers chunk page_lines none).0
apply_line_acceptance-Outcome_example =
    apply_line_acceptance-Outcome fractions default_guard nobody answers chunk page_lines none
      page_lines-IsTexted

apply_line_acceptance-is_decided_example :
    is_decided "c"
      (apply_line_acceptance fractions default_guard nobody answers chunk page_lines none).0
    ≡ true
unfolding line_at is_in is_line lookup
apply_line_acceptance-is_decided_example =
    apply_line_acceptance-is_decided fractions default_guard nobody answers "c" (codes "an ex-")
      chunk page_lines none refl refl refl
