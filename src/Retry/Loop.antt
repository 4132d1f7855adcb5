-- ===== src/Retry/Loop.antt =====
-- How the retry loop of core/attempt.py ends, and what it spends.
use corrigenda.Base.{
  ℕ, zero, suc, ◌+◌, ◌-◌, ◌≤◌, ◌<◌, ◌≡◌, refl, Bool, true, false, ◌||◌, none, some, Text, arith,
  length, drop, All, pos, inl, inr, Bool-cases, ltb, ltb→lt, ◌-ℤ◌, neg_part, not,
}
use mathlib.Core.Path.{subst}
use native.Mathlib.Nat.{add-zero}
use corrigenda.Floats.{Floats}
use corrigenda.Policies.{RetryPolicy}
use corrigenda.Retry.{
  Exc, is_recoverable, is_permanent, RetryDecision, classify_retry, Attempt, returns, raises,
  Ending, outcome, propagates, Attempted, after_failure, after_attempt, go_on, attempt_from,
  attempt_chunk, temperature, ChunkBudget, spend, exhausted, attempts_allowed,
}

module _ (fl : Floats) where
  -- Whatever the engine may recover from, the classifier retries.
  classify_retry-recoverable :
      (exc : Exc) (msg : Text) (attempt : ℕ) (seen : Bool) (policy : RetryPolicy fl)
      → is_recoverable exc ≡ true
      → (classify_retry fl exc msg attempt seen policy).is_retryable ≡ true
  unfolding classify_retry is_recoverable
  classify_retry-recoverable exc msg attempt seen policy h = ground arith

  abbrev pub IsCold : fl.Float → Type 0
  IsCold t = t ≡ fl.of_ℤ (pos 0)

  module _ {R : Type 0} (produce : ℕ → fl.Float → Attempt fl R) (policy : RetryPolicy fl)
      (max_attempts : ℕ) where
    -- What an ending says of the attempt at which it came. An answer is the producer's. A refusal
    -- comes at the last attempt that the policy allows, and the chunk may then be cut smaller. What
    -- leaves the loop is an exception that the producer raised and the engine may not recover from.
    abbrev pub IsEnding : Ending fl R → ℕ → Type 0
    IsEnding (outcome (some r) n d) last =
        (n ≡ last) × (d ≡ false) × ((t : fl.Float) × (produce n t ≡ returns r))
    IsEnding (outcome none n d) last = (n ≡ last) × (n ≡ max_attempts) × (d ≡ true)
    IsEnding (propagates exc) last =
        ((t : fl.Float) × (msg : Text) × (produce last t ≡ raises exc msg))
        × ((is_permanent exc || not (is_recoverable exc)) ≡ true)

    -- The account of a loop that begins at attempt `first`.
    pub record Accounts (first : ℕ) (a : Attempted fl R) : Type 0 where
      pub calls : length a.temperatures ≡ a.retry_count + 1
      pub within : first + a.retry_count ≤ max_attempts
      pub ended : IsEnding a.ending (first + a.retry_count)

    go_on-Accounts :
        (first : ℕ) (t : fl.Float) (later : Attempted fl R)
        → Accounts (first + 1) later
        → Accounts first (go_on fl t later)
    go_on-Accounts first t later h = record {
      calls = omega (arith, h.calls);
      within = omega (arith, h.within);
      ended = subst (IsEnding later.ending) (omega arith) h.ended;
    }

    after_failure-Accounts :
        (exc : Exc) (msg : Text) (seen : Bool) (first : ℕ) (t t' : fl.Float)
        (later : Attempted fl R)
        → first ≤ max_attempts
        → produce first t' ≡ raises exc msg
        → (first < max_attempts → Accounts (first + 1) later)
        → Accounts first (
            after_failure fl produce policy max_attempts exc
              (classify_retry fl exc msg first seen policy)
              first
              t
              later)
    unfolding after_failure
    after_failure-Accounts exc msg seen first t t' later b e h =
        elim (Bool-cases (is_permanent exc || not (is_recoverable exc))) [
          | inl leaves ↦ rw leaves (record {
            calls = refl;
            within = omega arith;
            ended = rw add-zero ((t', msg, e), leaves);
          })
          | inr stays ↦
              rw (stays, retried stays)
                (elim (Bool-cases (ltb first max_attempts)) [
                  | inl more ↦ rw more (go_on-Accounts first t later (h (ltb→lt _ _ more)))
                  | inr last ↦ rw last (record {
                    calls = refl;
                    within = omega arith;
                    ended = (omega arith, ground arith, refl);
                  })
                ])
        ]
      where
        retried :
            (is_permanent exc || not (is_recoverable exc)) ≡ false
            → (classify_retry fl exc msg first seen policy).is_retryable ≡ true
        retried stays = classify_retry-recoverable exc msg first seen policy (ground arith)

    after_attempt-Accounts :
        (p : Attempt fl R) (first : ℕ) (seen : Bool) (t : fl.Float) (later : Bool → Attempted fl R)
        → first ≤ max_attempts
        → produce first t ≡ p
        → (first < max_attempts → (b : Bool) → Accounts (first + 1) (later b))
        → Accounts first (after_attempt fl produce policy max_attempts p first seen t later)
    unfolding after_attempt
    after_attempt-Accounts (returns r) first seen t later b e h = record {
      calls = refl;
      within = omega arith;
      ended = (omega arith, refl, (t, e));
    }
    after_attempt-Accounts (raises exc msg) first seen t later b e h =
        after_failure-Accounts exc msg seen first t t
          (later (seen || (classify_retry fl exc msg first seen policy).is_hyphen_violation)) b e
          (λ more. h more _)

    attempt_from-Accounts :
        (left first : ℕ) (seen : Bool)
        → first + left ≡ max_attempts
        → Accounts first (attempt_from fl produce policy max_attempts (suc left) first seen)
    unfolding attempt_from
    attempt_from-Accounts zero first seen e =
        after_attempt-Accounts _ first seen _ _ (omega arith) refl (λ more _. absurd (omega arith))
    attempt_from-Accounts (suc left) first seen e =
        after_attempt-Accounts _ first seen _ _ (omega arith) refl
          (λ more b. attempt_from-Accounts left (first + 1) b (omega arith))

    -- Where the policy allows an attempt, the loop calls the producer once more than it counts
    -- retries, never more often than the policy allows; it answers with what the producer returned,
    -- or refuses at the last attempt allowed and lets the chunk be cut smaller, or is left by an
    -- exception of the producer that the engine may not recover from. It never gives up earlier.
    pub attempt_chunk-Accounts :
        0 < max_attempts → Accounts 1 (attempt_chunk fl produce policy max_attempts)
    unfolding attempt_chunk
    attempt_chunk-Accounts h =
        let e : suc (max_attempts - 1) ≡ max_attempts = omega arith in
        subst (λ k. Accounts 1 (attempt_from fl produce policy max_attempts k 1 false)) e
          (attempt_from-Accounts (max_attempts - 1) 1 false (omega arith))

    after_failure-IsCold :
        (exc : Exc) (d : RetryDecision fl) (first : ℕ) (t : fl.Float) (later : Attempted fl R)
        → IsCold t
        → All IsCold later.temperatures
        → All IsCold (after_failure fl produce policy max_attempts exc d first t later).temperatures
    unfolding after_failure
    after_failure-IsCold exc d first t later h hs = ground arith

    after_attempt-IsCold :
        (p : Attempt fl R) (first : ℕ) (t : fl.Float) (later : Bool → Attempted fl R)
        → IsCold t
        → All IsCold (later true).temperatures
        → All IsCold
            (after_attempt fl produce policy max_attempts p first true t later).temperatures
    unfolding after_attempt
    after_attempt-IsCold (returns r) first t later h hs = (h, tt)
    after_attempt-IsCold (raises exc msg) first t later h hs =
        after_failure-IsCold exc (classify_retry fl exc msg first true policy) first t (later true)
          h hs

    attempt_from-IsCold :
        (left first : ℕ)
        → All IsCold (attempt_from fl produce policy max_attempts left first true).temperatures
    unfolding attempt_from
    attempt_from-IsCold zero first = tt
    attempt_from-IsCold (suc left) first =
        after_attempt-IsCold _ first _ _ (unfold temperature in refl)
          (attempt_from-IsCold left (first + 1))

    hyphen_flag :
        (msg : Text) (first : ℕ) (seen : Bool)
        → (seen
            || (classify_retry fl Exc.hyphen_integrity msg first seen policy).is_hyphen_violation)
          ≡ true
    unfolding classify_retry
    hyphen_flag msg first seen = ground arith

    after_failure_tail :
        (exc : Exc) (d : RetryDecision fl) (first : ℕ) (t : fl.Float) (later : Attempted fl R)
        → All IsCold later.temperatures
        → All IsCold
            (drop 1 (after_failure fl produce policy max_attempts exc d first t later).temperatures)
    unfolding after_failure
    after_failure_tail exc d first t later hs = ground arith

    after_hyphen :
        (p : Attempt fl R) (msg : Text) (first : ℕ) (seen : Bool) (t : fl.Float)
        (later : Bool → Attempted fl R)
        → p ≡ raises Exc.hyphen_integrity msg
        → All IsCold (later true).temperatures
        → All IsCold (
            drop 1 (after_attempt fl produce policy max_attempts p first seen t later).temperatures)
    unfolding after_attempt
    after_hyphen p msg first seen t later e hs =
        rw (e, hyphen_flag msg first seen)
          (after_failure_tail Exc.hyphen_integrity
            (classify_retry fl Exc.hyphen_integrity msg first seen policy) first t (later true) hs)

    -- When an attempt ends in a violation of hyphen integrity, the first of its chunk or not,
    -- every attempt that the loop makes after it is made at temperature 0.
    pub IsCold-hyphen_integrity :
        (left first : ℕ) (seen : Bool) (msg : Text)
        → produce first (temperature fl produce policy max_attempts seen first)
          ≡ raises Exc.hyphen_integrity msg
        → All IsCold (
            drop 1 (attempt_from fl produce policy max_attempts (suc left) first seen).temperatures)
    unfolding attempt_from
    IsCold-hyphen_integrity left first seen msg e =
        after_hyphen _ msg first seen _ _ e (attempt_from-IsCold left (first + 1))

-- No call gets more attempts than the cap, and spending what the budget allows never overdraws it:
-- what it was overdrawn by before, if at all, stays the same. A call that gets fewer attempts than
-- the cap leaves the budget exhausted, and a budget that allows none to a positive cap was exhausted
-- before.
pub attempts_allowed-spend :
    (b : ChunkBudget) (cap : ℕ)
    → let allowed = attempts_allowed b cap in
      (allowed ≤ cap)
      × (neg_part (spend b allowed).remaining ≡ neg_part b.remaining)
      × (allowed < cap → exhausted (spend b allowed) ≡ true)
      × (0 < cap → allowed ≡ 0 → exhausted b ≡ true)
unfolding attempts_allowed spend exhausted ◌-ℤ◌
attempts_allowed-spend b cap = ground arith
