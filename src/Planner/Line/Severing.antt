-- ===== src/Planner/Line/Severing.antt =====
-- Severing a link of a page's lines, in `_plan_line` of core/planner.py.
use corrigenda.Base.{
  ℕ, zero, suc, ◌≡◌, refl, sym, ◌∙◌, ap, some, List, [], ◌∷◌, String, eq_iff, get_elem?, arith,
}
use corrigenda.Manifest.{LineManifest, HyphenRole}
use corrigenda.Pairing.{forward_partner_id}
use corrigenda.Units.{
  HyphenSplit, cut_tail, cut_head, continues_onto, severance, split_forward_link,
}
use corrigenda.Planner.{ids_of_lines}
use corrigenda.Planner.Segments.{
  get_elem?-some_bound, get_elem?-below, length-ids_of_lines, get_elem?-ids_of_lines,
}
use corrigenda.Planner.Line.{put, sever_at}

-- Severing changes no identifier.
line_id-cut_tail : (r : HyphenRole) (lm : LineManifest) → (cut_tail r lm).line_id ≡ lm.line_id
unfolding cut_tail
line_id-cut_tail HyphenRole.both lm = refl
line_id-cut_tail HyphenRole.part1 lm = refl
line_id-cut_tail HyphenRole.part2 lm = refl
line_id-cut_tail HyphenRole.no_role lm = refl

line_id-cut_head : (r : HyphenRole) (lm : LineManifest) → (cut_head r lm).line_id ≡ lm.line_id
unfolding cut_head
line_id-cut_head HyphenRole.both lm = refl
line_id-cut_head HyphenRole.part1 lm = refl
line_id-cut_head HyphenRole.part2 lm = refl
line_id-cut_head HyphenRole.no_role lm = refl

ids_of_lines-put :
    (k : ℕ) (x : LineManifest) (lines : List LineManifest)
    → get_elem? (ids_of_lines lines) k ≡ some x.line_id
    → ids_of_lines (put k x lines) ≡ ids_of_lines lines
unfolding ids_of_lines put
ids_of_lines-put k x [] h = cc
ids_of_lines-put zero x (lm ∷ lines) h = ground arith
ids_of_lines-put (suc k) x (lm ∷ lines) h = ap (λ t. lm.line_id ∷ t) (ids_of_lines-put k x lines h)

split_forward_link-some :
    (tail head : LineManifest)
    → forward_partner_id tail ≡ some head.line_id
    → split_forward_link tail head ≡ some (severance tail head)
unfolding split_forward_link continues_onto
split_forward_link-some tail head h = ground (arith, h, eq_iff head.line_id head.line_id)

pub sever_at-some :
    (lines : List LineManifest) (j k : ℕ) (tail head : LineManifest)
    → get_elem? lines j ≡ some tail
    → get_elem? lines k ≡ some head
    → forward_partner_id tail ≡ some head.line_id
    → (after : List LineManifest) × (splits : List HyphenSplit) × (sever_at lines j k
        ≡ some (after, splits))
      × (ids_of_lines after ≡ ids_of_lines lines)
unfolding sever_at severance
sever_at-some lines j k tail head t h f =
    let s = severance tail head in
    let first : ids_of_lines (put j s.tail lines) ≡ ids_of_lines lines =
      ids_of_lines-put j s.tail lines (
        get_elem?-ids_of_lines lines j tail t
        ∙ ap some (sym (line_id-cut_tail tail.hyphen_role tail))) in
    let second : ids_of_lines (put k s.head (put j s.tail lines))
        ≡ ids_of_lines (put j s.tail lines) =
      ids_of_lines-put k s.head (put j s.tail lines) (
        ap (λ ids. get_elem? ids k) first
        ∙ get_elem?-ids_of_lines lines k head h
        ∙ ap some (sym (line_id-cut_head head.hyphen_role head))) in
    (
      put k s.head (put j s.tail lines),
      s.split ∷ [],
      ground (arith, t, h, split_forward_link-some tail head f),
      second ∙ first,
    )

some-inj {ℓ} : {A : Type ℓ} {a b : A} → some a ≡ some b → a ≡ b
some-inj h = ground (arith, h)

pub line_at :
    (lines : List LineManifest) (k : ℕ) (i : String)
    → get_elem? (ids_of_lines lines) k ≡ some i
    → (lm : LineManifest) × (get_elem? lines k ≡ some lm) × (lm.line_id ≡ i)
line_at lines k i h =
    let (lm, e) =
      get_elem?-below lines k (
        omega
          (arith, get_elem?-some_bound (ids_of_lines lines) k i h, length-ids_of_lines lines)) in
    (lm, e, some-inj (sym (get_elem?-ids_of_lines lines k lm e) ∙ h))
