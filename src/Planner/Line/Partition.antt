-- ===== src/Planner/Line/Partition.antt =====
-- The chunks of `_plan_line` of core/planner.py and the page's lines.
use corrigenda.Base.{
  ℕ, zero, suc, ◌+◌, ◌-◌, ◌≤◌, ◌<◌, max, ◌≡◌, refl, sym, ◌∙◌, ap, inl, inr, Option, some, List, [],
  ◌∷◌, ◌++◌, String, is_in, length, length-append, get_elem?, drop, All, arith, Bool-cases,
  Option-cases,
}
use corrigenda.Manifest.{LineManifest, PageManifest}
use corrigenda.Pairing.{forward_partner_id}
use corrigenda.Policies.{ChunkPlannerConfig}
use corrigenda.Units.{HyphenSplit}
use corrigenda.Planner.{ChunkGranularity, chunk_ids, ChunkPlan, ids_of_lines, segment, index_by_id}
use corrigenda.Planner.Segments.{
  get_elem?-some_bound, get_elem?-none_bound, drop_all, length-segment, segment-append, segment_one,
  segment-drop, length-ids_of_lines, ids_of_lines-segment, get_elem?-ids_of_lines, IsIndex,
  index_by_id-IsIndex,
}
use corrigenda.Planner.Line.{
  forward_at, LinePlan, next_in_chain, walk, sever, add_chunk, plan_chunks, line_chunks,
  finished_plan, plan_line,
}
use corrigenda.Planner.Line.Severing.{line_at, sever_at-some}

-- The chunks' lines, one chunk after the other.
abbrev pub concat : List (List String) → List String
concat [] = []
concat (ids ∷ rest) = ids ++ concat rest

module _ (at : String → Option ℕ) (max_lines : ℕ) where
  -- A chain that starts at line `i` and has come to line `r.1`.
  record IsChain (lines : List LineManifest) (i : ℕ) (r : List String × ℕ) : Type 0 where
    inside : r.1 < length lines
    after : i ≤ r.1
    run : r.0 ≡ segment i (suc r.1) (ids_of_lines lines)
    short : length r.0 ≤ max 1 max_lines

  next_in_chain-some :
      (lines : List LineManifest) (count j k : ℕ)
      → IsIndex at (ids_of_lines lines)
      → next_in_chain at max_lines lines count j ≡ some k
      → (j < k) × (k < length lines) × (count + (k - j) ≤ max_lines)
  unfolding next_in_chain
  next_in_chain-some lines count j k x h = elim (Option-cases (forward_at lines j)) [
    | inl e ↦ absurd (ground (arith, e))
    | inr (p, e) ↦ elim (Option-cases (at p)) [
      | inl f ↦ absurd (ground (arith, e, f))
      | inr (n, f) ↦ (
        ground (arith, e, f),
        ground (
          arith,
          e,
          f,
          length-ids_of_lines lines,
          get_elem?-some_bound (ids_of_lines lines) n p (x p n f),
        ),
        ground (arith, e, f),
      )
    ]
  ]

  IsChain-step :
      (lines : List LineManifest) (i j k : ℕ) (chain : List String)
      → IsChain lines i (chain, j)
      → (j < k) × (k < length lines) × (length chain + (k - j) ≤ max_lines)
      → IsChain lines i (chain ++ ids_of_lines (segment (suc j) (suc k) lines), k)
  IsChain-step lines i j k chain c (a, b, d) =
      let more = ids_of_lines-segment (suc j) (suc k) lines in
      let size =
        length-segment (suc j) (suc k) (ids_of_lines lines)
          (omega (arith, length-ids_of_lines lines)) in
      record {
        inside = b;
        after = omega (arith, c.after);
        run =
            ap (λ t. t ++ ids_of_lines (segment (suc j) (suc k) lines)) c.run
            ∙ ap (λ t. segment i (suc j) (ids_of_lines lines) ++ t) more
            ∙ segment-append i (suc j) (suc k) (ids_of_lines lines) (omega (arith, c.after))
                (omega arith);
        short = omega (
          arith,
          length-append chain (ids_of_lines (segment (suc j) (suc k) lines)),
          ap length more,
          size,
        );
      }

  walk-IsChain :
      (fuel : ℕ) (lines : List LineManifest) (i : ℕ) (chain : List String) (j : ℕ)
      → IsIndex at (ids_of_lines lines)
      → IsChain lines i (chain, j)
      → IsChain lines i (walk at max_lines fuel lines chain j)
  unfolding walk
  walk-IsChain zero lines i chain j x c = c
  walk-IsChain (suc fuel) lines i chain j x c =
      elim (Option-cases (next_in_chain at max_lines lines (length chain) j)) [
        | inl e ↦ rw (e, walk) c
        | inr (k, e) ↦
            rw (e, walk)
              (walk-IsChain fuel lines i (chain ++ ids_of_lines (segment (suc j) (suc k) lines)) k x
                (IsChain-step lines i j k chain c
                  (next_in_chain-some lines (length chain) j k x e)))
      ]

  sever-some :
      (lines : List LineManifest) (chain : List String) (j : ℕ)
      → IsIndex at (ids_of_lines lines)
      → (after : List LineManifest) × (splits : List HyphenSplit) × (sever at max_lines lines chain
            j
          ≡ some (after, splits))
        × (ids_of_lines after ≡ ids_of_lines lines)
  unfolding sever forward_at
  sever-some lines chain j x = elim (Option-cases (get_elem? lines j)) [
    | inl e ↦ (lines, [], ground (arith, e), refl)
    | inr (tail, e) ↦ elim (Option-cases (forward_partner_id tail)) [
      | inl f ↦ (lines, [], ground (arith, e, f), refl)
      | inr (p, f) ↦ elim (Bool-cases (is_in p chain)) [
        | inl c ↦ (lines, [], ground (arith, e, f, c), refl)
        | inr c ↦ elim (Option-cases (at p)) [
          | inl a ↦ (lines, [], ground (arith, e, f, c, a), refl)
          | inr (k, a) ↦
              let (head, h, named) = line_at lines k p (x p k a) in
              let (after, splits, done, same) =
                sever_at-some lines j k tail head e h (f ∙ ap some (sym named)) in
              (after, splits, ground (arith, e, f, c, a, done), same)
        ]
      ]
    ]
  ]

  -- What the loop from line `i` of these lines comes to.
  record IsPartition (lines : List LineManifest) (i : ℕ) (plan : LinePlan) : Type 0 where
    covers : concat plan.chunks ≡ drop i (ids_of_lines lines)
    bounded : All (λ ids. length ids ≤ max 1 max_lines) plan.chunks
    kept : ids_of_lines plan.lines ≡ ids_of_lines lines

  done :
      (lines : List LineManifest) (i : ℕ)
      → length lines ≤ i
      → IsPartition lines i (record { lines = lines; chunks = []; splits = [] })
  done lines i h = record {
    covers = sym (drop_all (ids_of_lines lines) i (omega (arith, length-ids_of_lines lines)));
    bounded = tt;
    kept = refl;
  }

  IsPartition-add :
      (lines after : List LineManifest) (i : ℕ) (r : List String × ℕ) (splits : List HyphenSplit)
      (plan : LinePlan)
      → IsChain lines i r
      → ids_of_lines after ≡ ids_of_lines lines
      → IsPartition after (suc r.1) plan
      → (whole : LinePlan) × (add_chunk r.0 splits (some plan) ≡ some whole)
        × IsPartition lines i whole
  unfolding add_chunk
  IsPartition-add lines after i r splits plan c same p = (
    _,
    refl,
    record {
      covers =
          ap (λ t. t ++ concat plan.chunks) c.run
          ∙ ap (λ t. segment i (suc r.1) (ids_of_lines lines) ++ t)
              (p.covers ∙ ap (drop (suc r.1)) same)
          ∙ segment-drop i (suc r.1) (ids_of_lines lines) (omega (arith, c.after));
      bounded = (c.short, p.bounded);
      kept = p.kept ∙ same;
    },
  )

  plan_chunks-IsPartition :
      (fuel : ℕ) (lines : List LineManifest) (i : ℕ)
      → IsIndex at (ids_of_lines lines)
      → length lines ≤ i + fuel
      → (plan : LinePlan) × (plan_chunks at max_lines fuel lines i ≡ some plan)
        × IsPartition lines i plan
  unfolding plan_chunks
  plan_chunks-IsPartition zero lines i x h = (_, refl, done lines i (omega arith))
  plan_chunks-IsPartition (suc fuel) lines i x h = elim (Option-cases (get_elem? lines i)) [
    | inl e ↦ (_, ground (arith, e), done lines i (get_elem?-none_bound lines i e))
    | inr (lm, e) ↦
        let start = get_elem?-ids_of_lines lines i lm e in
        let inside = get_elem?-some_bound lines i lm e in
        let r = walk at max_lines (length lines) lines (lm.line_id ∷ []) i in
        let c : IsChain lines i r =
          walk-IsChain (length lines) lines i (lm.line_id ∷ []) i x (record {
            inside = inside;
            after = omega arith;
            run = sym (segment_one (ids_of_lines lines) i lm.line_id start);
            short = omega arith;
          }) in
        let (after, splits, severed, same) = sever-some lines r.0 r.1 x in
        let (plan, rest, p) = plan_chunks-IsPartition fuel after (suc r.1) (rw same x) (
          omega (
            arith,
            length-ids_of_lines lines,
            length-ids_of_lines after,
            ap length same,
            c.after,
          )) in
        let (whole, added, q) = IsPartition-add lines after i r splits plan c same p in
        (whole, ground (arith, e, severed, rest, added), q)
  ]

chunk_ids-line_chunks :
    (page_id : String) (l : List (List String)) → chunk_ids (line_chunks page_id l) ≡ l
unfolding line_chunks
chunk_ids-line_chunks page_id [] = refl
chunk_ids-line_chunks page_id (ids ∷ rest) = ap (λ t. ids ∷ t) (chunk_ids-line_chunks page_id rest)

-- A plan of a page line by line: it says that it is one; its chunks, one after the other, are the page's lines in order;
-- none holds more lines than a request may, or than one; and the page's lines stay in place.
pub record IsLinePlan (page : PageManifest) (config : ChunkPlannerConfig)
    (r : ChunkPlan × List LineManifest) : Type 0 where
  pub is_line_tier : r.0.granularity ≡ ChunkGranularity.line
  pub covers : concat (chunk_ids r.0.chunks) ≡ ids_of_lines page.lines
  pub bounded : All (λ ids. length ids ≤ max 1 config.max_lines_per_request) (chunk_ids r.0.chunks)
  pub kept : ids_of_lines r.1 ≡ ids_of_lines page.lines

-- Planning a page line by line always gives a plan of that tier: `split_forward_link` never refuses. The plan's
-- chunks, one after the other, are the page's lines in order, so that each line is in one chunk;
-- no chunk exceeds the line cap, or one line where the cap is 0; and severing the links that the
-- cap cuts changes no line's identifier or place.
pub plan_line-IsLinePlan :
    (page : PageManifest) (config : ChunkPlannerConfig)
    → (r : ChunkPlan × List LineManifest) × (plan_line page config ≡ some r)
      × IsLinePlan page config r
unfolding plan_line
plan_line-IsLinePlan page config =
    let (plan, e, p) =
      plan_chunks-IsPartition (index_by_id page.lines) config.max_lines_per_request
        (length page.lines) page.lines 0 (index_by_id-IsIndex page.lines) (omega arith) in
    let same = chunk_ids-line_chunks page.page_id plan.chunks in
    (
      finished_plan page plan,
      ground (arith, e),
      record {
        is_line_tier = unfold finished_plan in refl;
        covers = ap concat same ∙ p.covers;
        bounded = rw same p.bounded;
        kept = p.kept;
      },
    )
