-- ===== src/Batching/Capped.antt =====
-- The batches of core/batching.py: their size, and the targets in them.
use corrigenda.Base.{
  ℕ, ◌+◌, ◌≤◌, Bool, true, false, ◌&&◌, ◌||◌, not, ◌≡◌, refl, ap, ◌⊎◌, inl, inr, Option, none, some,
  List, [], ◌∷◌, ◌++◌, String, str_eq, eq_iff, is_in, select, length, length-append, All, ltb, leb,
  arith, Bool-cases, Option-cases,
}
use corrigenda.Manifest.{LineManifest}
use corrigenda.Planner.{ChunkRequest, chunk_ids, target_ids_of, chunk_targets}
use corrigenda.Batching.{
  add_batch, last_batch, is_open, in_unit, members_of, batches_from, batch_chunks, split_chunk,
}

-- A line is in one of the batches.
abbrev pub in_some : String → List (List String) → Bool
in_some i [] = false
in_some i (batch ∷ batches) = is_in i batch || in_some i batches

is_in-append : (i : String) (a b : List String) → is_in i (a ++ b) ≡ (is_in i a || is_in i b)
unfolding is_in
is_in-append i [] b = refl
is_in-append i (j ∷ a) b = ground (arith, is_in-append i a b)

is_in-select :
    (p : String → Bool) (l : List String) (x : String)
    → is_in x l ≡ true
    → p x ≡ true
    → is_in x (select p l) ≡ true
unfolding is_in select
is_in-select p [] x h q = cc
is_in-select p (y ∷ l) x h q = ground (arith, is_in-select p l x, eq_iff x y)

add_batch-some :
    (batch : List String) (o : Option (List (List String))) (bs : List (List String))
    → add_batch batch o ≡ some bs
    → (rest : List (List String)) × (o ≡ some rest) × (bs ≡ batch ∷ rest)
unfolding add_batch
add_batch-some batch none bs h = cc
add_batch-some batch (some rest) bs h = (rest, refl, ground arith)

module _ (line_of : String → Option LineManifest) (units : String → Option (List String)) where
  -- The unit that is found for a line holds it.
  abbrev pub IsReflexive : Type 0
  IsReflexive = (i : String) (unit : List String) → units i ≡ some unit → is_in i unit ≡ true

  in_unit_self :
      (assigned : List String) (i : String)
      → IsReflexive
      → is_in i assigned ≡ false
      → in_unit line_of units assigned i i ≡ true
  unfolding in_unit
  in_unit_self assigned i r h = elim (Option-cases (line_of i)) [
    | inl e ↦ ground (arith, e, eq_iff i i)
    | inr (lm, e) ↦ elim (Option-cases (units i)) [
      | inl f ↦ ground (arith, e, f, eq_iff i i)
      | inr (unit, f) ↦ ground (arith, e, f, h, r i unit f, eq_iff i i)
    ]
  ]

  module _ (cap : ℕ) (line_ids targets : List String) (r : IsReflexive) where
    fits :
        (current members : List String)
        → length current ≤ cap
        → length members ≤ cap
        → is_open current && ltb cap (length current + length members) ≡ false
        → length (current ++ members) ≤ cap
    unfolding is_open
    fits [] members h k f = k
    fits (c ∷ cs) members h k f = ground (arith, length-append (c ∷ cs) members)

    -- What the loop comes to from a batch that is being filled and the lines assigned.
    record IsBatching (rest current assigned : List String) (bs : List (List String)) : Type 0 where
      bounded : All (λ b. length b ≤ cap) bs
      keeps : (i : String) → is_in i current ≡ true → in_some i bs ≡ true
      covers :
          (i : String)
          → is_in i rest ≡ true
          → is_in i targets ≡ true
          → (is_in i assigned ≡ true) ⊎ (in_some i bs ≡ true)

    IsBatching-last :
        (current assigned : List String)
        → length current ≤ cap
        → IsBatching [] current assigned (last_batch current)
    unfolding last_batch is_in
    IsBatching-last [] assigned h = record { bounded = tt; keeps = λ i k. k; covers = λ i k t. cc }
    IsBatching-last (c ∷ cs) assigned h = record {
      bounded = (h, tt);
      keeps = λ i k. ground arith;
      covers = λ i k t. cc;
    }

    IsBatching-skip :
        (i : String) (rest current assigned : List String) (bs : List (List String))
        → is_in i assigned || not (is_in i targets) ≡ true
        → IsBatching rest current assigned bs
        → IsBatching (i ∷ rest) current assigned bs
    unfolding is_in
    IsBatching-skip i rest current assigned bs s b = record {
      bounded = b.bounded;
      keeps = b.keeps;
      covers = λ j k t. elim (Bool-cases (is_in j assigned)) [
        | inl a ↦ inl a
        | inr a ↦ elim (Bool-cases (str_eq j i)) [
          | inl e ↦ absurd (ground (arith, eq_iff j i))
          | inr e ↦ b.covers j (ground arith) t
        ]
      ];
    }

    covers_next :
        (i : String) (rest members assigned : List String) (bs : List (List String))
        → is_in i members ≡ true
        → ((j : String) → is_in j members ≡ true → in_some j bs ≡ true)
        → ((j : String)
            → is_in j rest ≡ true
            → is_in j targets ≡ true
            → (is_in j (members ++ assigned) ≡ true) ⊎ (in_some j bs ≡ true))
        → (j : String) → is_in j (i ∷ rest) ≡ true
        → is_in j targets ≡ true
        → (is_in j assigned ≡ true) ⊎ (in_some j bs ≡ true)
    unfolding is_in
    covers_next i rest members assigned bs self keeps covers j k t =
        elim (Bool-cases (str_eq j i)) [
          | inl e ↦ let same : j ≡ i = ground (arith, e, eq_iff j i) in inr (keeps j (rw same self))
          | inr e ↦ elim (covers j (ground (arith, e)) t) [
            | inr b ↦ inr b
            | inl a ↦ elim (Bool-cases (is_in j members)) [
              | inl m ↦ inr (keeps j m)
              | inr m ↦ inl (ground (arith, a, m, is_in-append j members assigned))
            ]
          ]
        ]

    batches_from-IsBatching :
        (rest current assigned : List String) (bs : List (List String))
        → ((i : String) → is_in i rest ≡ true → is_in i line_ids ≡ true)
        → length current ≤ cap
        → batches_from line_of units cap line_ids targets rest current assigned ≡ some bs
        → IsBatching rest current assigned bs
    unfolding batches_from members_of
    batches_from-IsBatching [] current assigned bs inside h e =
        let same : last_batch current ≡ bs = ground arith in
        rw (← same) (IsBatching-last current assigned h)
    batches_from-IsBatching (i ∷ rest) current assigned bs inside h e =
        let members = members_of line_of units cap line_ids targets assigned i in
        let later : (j : String) → is_in j rest ≡ true → is_in j line_ids ≡ true =
          λ j k. inside j (unfold is_in in ground (arith, k)) in
        elim (Bool-cases (is_in i assigned || not (is_in i targets))) [
          | inl s ↦
              IsBatching-skip i rest current assigned bs s
                (batches_from-IsBatching rest current assigned bs later h (ground (arith, s)))
          | inr s ↦
              let self : is_in i members ≡ true =
                is_in-select (in_unit line_of units assigned i) line_ids i
                  (inside i (unfold is_in in ground (arith, eq_iff i i)))
                  (in_unit_self assigned i r (ground (arith, s))) in
              elim (Bool-cases (ltb cap (length members))) [
                | inl big ↦ absurd (ground (arith, s, big))
                | inr big ↦
                    elim (Bool-cases
                      (is_open current && ltb cap (length current + length members))) [
                        | inl full ↦
                            let (tail, made, same) =
                              add_batch-some current
                                (batches_from line_of units cap line_ids targets rest members
                                  (members ++ assigned))
                                bs (ground (arith, s, big, full)) in
                            let b =
                              batches_from-IsBatching rest members (members ++ assigned) tail later
                                (ground (arith, big)) made in
                            rw same (record {
                              bounded = (h, b.bounded);
                              keeps = λ j k. ground (arith, k);
                              covers = λ j k t.
                                  elim (covers_next i rest members assigned tail self b.keeps
                                    b.covers j k t) [
                                      | inl a ↦ inl a
                                      | inr a ↦ inr (ground (arith, a))
                                    ];
                            })
                        | inr full ↦
                            let b =
                              batches_from-IsBatching rest (current ++ members)
                                (members ++ assigned) bs later
                                (fits current members h (ground (arith, big)) full)
                                (ground (arith, s, big, full)) in
                            record {
                              bounded = b.bounded;
                              keeps = λ j k.
                                  b.keeps j (ground (arith, k, is_in-append j current members));
                              covers =
                                  covers_next i rest members assigned bs self
                                    (λ j k.
                                      b.keeps j (ground (arith, k, is_in-append j current members)))
                                    b.covers;
                            }
                      ]
              ]
        ]

  chunk_ids-batch_chunks :
      (chunk : ChunkRequest) (bs : List (List String))
      → chunk_ids (batch_chunks line_of units chunk bs) ≡ bs
  unfolding batch_chunks
  chunk_ids-batch_chunks chunk [] = refl
  chunk_ids-batch_chunks chunk (b ∷ bs) = ap (λ t. b ∷ t) (chunk_ids-batch_chunks chunk bs)

  in_some-batch_chunks :
      (chunk : ChunkRequest) (i : String) (bs : List (List String))
      → is_in i (chunk_targets chunk) ≡ true
      → in_some i bs ≡ true
      → in_some i (target_ids_of (batch_chunks line_of units chunk bs)) ≡ true
  unfolding batch_chunks chunk_targets
  in_some-batch_chunks chunk i [] t h = cc
  in_some-batch_chunks chunk i (b ∷ bs) t h = elim (Bool-cases (is_in i b)) [
    | inl e ↦ ground (arith, is_in-select (λ j. is_in j (chunk_targets chunk)) b i e t)
    | inr e ↦ ground (arith, in_some-batch_chunks chunk i bs t (ground (arith, e)))
  ]

  -- The calls that a chunk is cut into.
  pub record IsSplit (cap : Option ℕ) (chunk : ChunkRequest) (chunks : List ChunkRequest)
      : Type 0 where
    pub bounded : (n : ℕ) → cap ≡ some n → All (λ ids. length ids ≤ n) (chunk_ids chunks)
    pub covers :
        (i : String)
        → is_in i chunk.line_ids ≡ true
        → is_in i (chunk_targets chunk) ≡ true
        → in_some i (target_ids_of chunks) ≡ true

  IsSplit-whole :
      (cap : Option ℕ) (chunk : ChunkRequest)
      → ((n : ℕ) → cap ≡ some n → length chunk.line_ids ≤ n)
      → IsSplit cap chunk (chunk ∷ [])
  IsSplit-whole cap chunk h = record {
    bounded = λ n e. (h n e, tt);
    covers = λ i k t. ground (arith, t);
  }

  IsSplit-batches :
      (cap : ℕ) (chunk : ChunkRequest) (bs : List (List String))
      → IsReflexive
      → batches_from line_of units cap chunk.line_ids (chunk_targets chunk) chunk.line_ids [] []
        ≡ some bs
      → IsSplit (some cap) chunk (batch_chunks line_of units chunk bs)
  unfolding is_in
  IsSplit-batches cap chunk bs r e =
      let b =
        batches_from-IsBatching cap chunk.line_ids (chunk_targets chunk) r chunk.line_ids [] [] bs
          (λ i k. k) (omega arith) e in
      record {
        bounded = λ n h.
            let same : cap ≡ n = ground (arith, h) in
            rw (chunk_ids-batch_chunks chunk bs, ← same) b.bounded;
        covers = λ i k t. elim (b.covers i k t) [
          | inl a ↦ absurd (ground (arith, a))
          | inr a ↦ in_some-batch_chunks chunk i bs t a
        ];
      }

  -- When a chunk is cut for a producer, as long as the unit that is found for a line holds that
  -- line, no call sends more lines than the producer takes images, and each target of the chunk is
  -- a target of one of the calls.
  pub split_chunk-IsSplit :
      (cap : Option ℕ) (chunk : ChunkRequest) (chunks : List ChunkRequest)
      → IsReflexive
      → split_chunk line_of units cap chunk ≡ some chunks
      → IsSplit cap chunk chunks
  unfolding split_chunk
  split_chunk-IsSplit none chunk chunks r e =
      let same : chunk ∷ [] ≡ chunks = ground arith in
      rw (← same) (IsSplit-whole none chunk (λ n h. cc))
  split_chunk-IsSplit (some cap) chunk chunks r e =
      elim (Bool-cases (leb (length chunk.line_ids) cap)) [
        | inl f ↦
            let same : chunk ∷ [] ≡ chunks = ground (arith, f) in
            rw (← same) (IsSplit-whole (some cap) chunk (λ n h. ground (arith, f, h)))
        | inr f ↦
            elim (Option-cases (
              batches_from line_of units cap chunk.line_ids (chunk_targets chunk) chunk.line_ids []
                [])) [
                  | inl m ↦ absurd (ground (arith, f, m))
                  | inr (bs, m) ↦
                      let same : batch_chunks line_of units chunk bs ≡ chunks =
                        ground (arith, f, m) in
                      rw (← same) (IsSplit-batches cap chunk bs r m)
                ]
      ]
