-- ===== src/Pairing.antt =====
-- core/pairing.py: the references from a broken line to its partner, and the pass that links broken
-- lines. Where the source mutates two `LineManifest` objects, the model returns
-- both.
pub mod Links
use corrigenda.Base.{
  ℕ, zero, suc, String, Bool, true, false, ◌&&◌, ◌||◌, not, Option, none, some, List, [], ◌∷◌, ◌++◌,
  Text, rstrip, rstrip_by, ends_in, words, is_blank, is_empty, length, drop, select, ◌==◌,
  if◌then◌else◌,
}
use corrigenda.Manifest.{
  HyphenRole, LineManifest, LineRef, PageManifest, line_ref, ref_eq, truthy, or_else, wants_forward,
  wants_backward,
}

-- The shared body of `pair_ref` and `forward_ref`.
unfoldable pub ref_from : String → Option String → Option String → Option LineRef
unfolding or_else
ref_from own_page page none = none
ref_from own_page page (some line) =
    some (record { page_id = or_else page own_page; line_id = line })

unfoldable pub pair_ref : LineManifest → Option LineRef
unfolding ref_from truthy
pair_ref lm = ref_from lm.page_id lm.hyphen_pair_page_id (truthy lm.hyphen_pair_line_id)

unfoldable pub forward_ref : LineManifest → Option LineRef
unfolding ref_from truthy
forward_ref lm =
    ref_from lm.page_id lm.hyphen_forward_pair_page_id (truthy lm.hyphen_forward_pair_id)

unfoldable pub forward_by_role : HyphenRole → LineManifest → Option LineRef
unfolding pair_ref forward_ref
forward_by_role HyphenRole.part1 lm = pair_ref lm
forward_by_role HyphenRole.both lm = forward_ref lm
forward_by_role HyphenRole.part2 lm = none
forward_by_role HyphenRole.no_role lm = none

unfoldable pub forward_partner_ref : LineManifest → Option LineRef
unfolding forward_by_role
forward_partner_ref lm = forward_by_role lm.hyphen_role lm

unfoldable pub backward_partner_ref : LineManifest → Option LineRef
unfolding pair_ref wants_backward
backward_partner_ref lm = if wants_backward lm.hyphen_role then pair_ref lm else none

unfoldable pub forward_partner_id : LineManifest → Option String
unfolding forward_partner_ref
forward_partner_id lm = elim (forward_partner_ref lm) [ none ↦ none | some r ↦ some r.line_id ]

unfoldable pub explicit_by_role : HyphenRole → LineManifest → Bool
explicit_by_role HyphenRole.both lm = lm.hyphen_forward_explicit
explicit_by_role HyphenRole.part1 lm = lm.hyphen_source_explicit
explicit_by_role HyphenRole.part2 lm = lm.hyphen_source_explicit
explicit_by_role HyphenRole.no_role lm = lm.hyphen_source_explicit

unfoldable pub forward_break_is_explicit : LineManifest → Bool
unfolding explicit_by_role
forward_break_is_explicit lm = explicit_by_role lm.hyphen_role lm

-- `a or b` for optional texts
unfoldable pub or_text : Option Text → Option Text → Option Text
or_text none b = b
or_text (some []) b = b
or_text (some (c ∷ s)) b = some (c ∷ s)

-- `if subs: target = subs`
unfoldable pub set_text : Option Text → Option Text → Option Text
set_text none old = old
set_text (some []) old = old
set_text (some (c ∷ s)) old = some (c ∷ s)

-- The candidate's role before the link is written: a PART1 candidate becomes BOTH, and its own
-- break moves to the forward fields; a candidate with no role becomes PART2.
unfoldable pub promote : HyphenRole → LineManifest → LineManifest → LineManifest
unfolding forward_break_is_explicit
promote HyphenRole.part1 line candidate = record candidate {
  hyphen_forward_explicit = candidate.hyphen_source_explicit;
  hyphen_forward_subs_content = candidate.hyphen_subs_content;
  hyphen_subs_content = none;
  hyphen_role = HyphenRole.both;
  hyphen_source_explicit = forward_break_is_explicit line;
}
promote HyphenRole.no_role line candidate = record candidate {
  hyphen_role = HyphenRole.part2;
  hyphen_source_explicit = forward_break_is_explicit line;
}
promote HyphenRole.part2 line candidate = candidate
promote HyphenRole.both line candidate = candidate

-- The link itself, written on both lines: a BOTH line by its forward fields, any other by its pair
-- fields.
unfoldable pub write_link : HyphenRole → LineManifest → LineManifest → LineManifest × LineManifest
unfolding or_text set_text
write_link HyphenRole.both line candidate =
    let subs = or_text line.hyphen_forward_subs_content candidate.hyphen_subs_content in
    (
      record line {
        hyphen_forward_pair_id = some candidate.line_id;
        hyphen_forward_pair_page_id = some candidate.page_id;
        hyphen_forward_subs_content = set_text subs line.hyphen_forward_subs_content;
      },
      record candidate {
        hyphen_pair_line_id = some line.line_id;
        hyphen_pair_page_id = some line.page_id;
        hyphen_subs_content = set_text subs candidate.hyphen_subs_content;
      },
    )
write_link _ line candidate =
    let subs = or_text line.hyphen_subs_content candidate.hyphen_subs_content in
    (
      record line {
        hyphen_pair_line_id = some candidate.line_id;
        hyphen_pair_page_id = some candidate.page_id;
        hyphen_subs_content = set_text subs line.hyphen_subs_content;
      },
      record candidate {
        hyphen_pair_line_id = some line.line_id;
        hyphen_pair_page_id = some line.page_id;
        hyphen_subs_content = set_text subs candidate.hyphen_subs_content;
      },
    )

-- One round of the loop of `link_hyphen_pairs`, on a line and the next line with a text.
-- `can_pair` is the method of the injected `PairingPolicy`.
unfoldable pub link_pair :
    (LineManifest → LineManifest → Bool) → LineManifest → LineManifest → LineManifest × LineManifest
unfolding wants_forward promote write_link
link_pair can_pair line candidate =
    if wants_forward line.hyphen_role && can_pair line candidate
    then write_link line.hyphen_role line (promote candidate.hyphen_role line candidate)
    else (line, candidate)

unfoldable pub link_from :
    (LineManifest → LineManifest → Bool) → LineManifest → List LineManifest → List LineManifest
link_from can_pair line [] = line ∷ []
link_from can_pair line (candidate ∷ rest) =
    let (line', candidate') = link_pair can_pair line candidate in
    line' ∷ link_from can_pair candidate' rest

unfoldable pub link_substantive :
    (LineManifest → LineManifest → Bool) → List LineManifest → List LineManifest
unfolding link_from
link_substantive can_pair [] = []
link_substantive can_pair (line ∷ rest) = link_from can_pair line rest

unfoldable pub is_substantive : LineManifest → Bool
unfolding is_blank
is_substantive line = not (is_blank line.ocr_text)

-- The source links the objects that the filtered list shares with the page: here the linked lines
-- go back to the places of the lines that the filter kept.
unfoldable pub write_back : List LineManifest → List LineManifest → List LineManifest
unfolding is_substantive
write_back [] linked = []
write_back (line ∷ lines) [] = line ∷ lines
write_back (line ∷ lines) (l ∷ linked) =
    if is_substantive line
    then l ∷ write_back lines linked
    else line ∷ write_back lines (l ∷ linked)

unfoldable pub link_hyphen_pairs :
    (LineManifest → LineManifest → Bool) → List LineManifest → List LineManifest
unfolding link_substantive is_substantive write_back select
link_hyphen_pairs can_pair lines =
    write_back lines (link_substantive can_pair (select is_substantive lines))
