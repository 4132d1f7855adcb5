-- ===== src/Retry.antt =====
-- core/retry.py, and the retry loop of core/attempt.py that consults it. The producer, which the
-- loop awaits, is the environment: a function of the attempt's number and temperature.
pub mod Loop
use corrigenda.Base.{
  ℕ, zero, suc, ◌+◌, ◌-◌, Bool, true, false, ◌&&◌, ◌||◌, not, Option, none, some, List, [], ◌∷◌,
  ◌++◌, Text, take, codes, ltb, leb, min, max, pos, ℤ, leb_ℤ, ◌-ℤ◌, pos_part, if◌then◌else◌,
}
use corrigenda.Floats.{Floats}
use corrigenda.Policies.{RetryPolicy, temperature_for}

-- The exceptions that the classifier tells apart, by class. A `HyphenIntegrityError` is a
-- `ProposalValidationError`, which is a `ValueError`, as is a `JSONDecodeError`.
pub data Exc : Type 0 where
  hyphen_integrity proposal_validation value_error provider_transient provider_permanent other : Exc

unfoldable pub is_value_error : Exc → Bool
is_value_error Exc.hyphen_integrity = true
is_value_error Exc.proposal_validation = true
is_value_error Exc.value_error = true
is_value_error Exc.provider_transient = false
is_value_error Exc.provider_permanent = false
is_value_error Exc.other = false

unfoldable pub is_hyphen_error : Exc → Bool
is_hyphen_error Exc.hyphen_integrity = true
is_hyphen_error _ = false

unfoldable pub is_transient : Exc → Bool
is_transient Exc.provider_transient = true
is_transient _ = false

unfoldable pub is_permanent : Exc → Bool
is_permanent Exc.provider_permanent = true
is_permanent _ = false

-- `isinstance(exc, _RECOVERABLE_ERROR_TYPES)`
unfoldable pub is_recoverable : Exc → Bool
unfolding is_transient is_value_error
is_recoverable e = is_transient e || is_value_error e

module _ (fl : Floats) where
  pub record RetryDecision : Type 0 where
    pub is_retryable : Bool
    pub backoff : fl.Float
    pub error_tag : Text
    pub is_hyphen_violation : Bool

  -- `attempt * base`
  abbrev backoff_of : ℕ → fl.Float → fl.Float
  backoff_of attempt base = fl.mul (fl.of_ℤ (pos attempt)) base

  unfoldable pub classify_retry : Exc → Text → ℕ → Bool → RetryPolicy fl → RetryDecision
  unfolding is_hyphen_error is_transient is_value_error
  classify_retry exc msg attempt hyphen_already_seen policy =
      if is_hyphen_error exc && not hyphen_already_seen
      then record {
        is_retryable = true;
        backoff = fl.of_ℤ (pos 0);
        error_tag = codes "hyphen_integrity_violation";
        is_hyphen_violation = true;
      }
      else if is_transient exc
      then record {
        is_retryable = true;
        backoff = backoff_of attempt policy.transient_backoff_base;
        error_tag = take 120 msg;
        is_hyphen_violation = false;
      }
      else if is_value_error exc
      then record {
        is_retryable = true;
        backoff = backoff_of attempt policy.output_backoff_base;
        error_tag = take 120 msg;
        is_hyphen_violation = false;
      }
      else record {
        is_retryable = false;
        backoff = fl.of_ℤ (pos 0);
        error_tag = take 120 msg;
        is_hyphen_violation = false;
      }

  -- What one call of the producer, with the validation of its answer, comes to.
  pub data Attempt (R : Type 0) : Type 0 where
    returns : R → Attempt R
    raises : Exc → Text → Attempt R

  -- How the loop ends: an `_AttemptOutcome`, or an exception that leaves it.
  pub data Ending (R : Type 0) : Type 0 where
    outcome : (response : Option R) (attempts_used : ℕ) (can_downgrade : Bool) → Ending R
    propagates : Exc → Ending R

  -- The ending, with what the run context counted: the producer's calls, with the temperature of
  -- each, and the retries.
  pub record Attempted (R : Type 0) : Type 0 where
    pub ending : Ending R
    pub temperatures : List fl.Float
    pub retry_count : ℕ

  module _ {R : Type 0} where
    abbrev pub stop : Ending R → fl.Float → Attempted R
    stop e t = record { ending = e; temperatures = t ∷ []; retry_count = 0 }

    abbrev pub go_on : fl.Float → Attempted R → Attempted R
    go_on t later = record {
      ending = later.ending;
      temperatures = t ∷ later.temperatures;
      retry_count = later.retry_count + 1;
    }

  module _ {R : Type 0} (produce : ℕ → fl.Float → Attempt R) (policy : RetryPolicy fl)
      (max_attempts : ℕ) where
    unfoldable pub temperature : Bool → ℕ → fl.Float
    temperature hyphen_violation attempt =
        if hyphen_violation then fl.of_ℤ (pos 0) else temperature_for fl policy attempt

    -- The `except` clauses: a permanent provider error and whatever is not recoverable leave the
    -- loop; `later` is what the next round comes to.
    unfoldable pub after_failure : Exc → RetryDecision → ℕ → fl.Float → Attempted R → Attempted R
    unfolding is_recoverable is_permanent
    after_failure exc decision attempt t later =
        if is_permanent exc || not (is_recoverable exc)
        then stop (propagates exc) t
        else if ltb attempt max_attempts && decision.is_retryable
        then go_on t later
        else stop (outcome none attempt decision.is_retryable) t

    -- The body of one round: `later` is what the next rounds come to, once it is known whether a
    -- hyphen violation was seen.
    unfoldable pub after_attempt :
        Attempt R → ℕ → Bool → fl.Float → (Bool → Attempted R) → Attempted R
    unfolding after_failure classify_retry
    after_attempt (returns r) attempt hyphen_violation t later =
        stop (outcome (some r) attempt false) t
    after_attempt (raises exc msg) attempt hyphen_violation t later =
        let decision = classify_retry exc msg attempt hyphen_violation policy in
        after_failure exc decision attempt t
          (later (hyphen_violation || decision.is_hyphen_violation))

    -- The rounds left, the number of the attempt and whether a hyphen violation was seen.
    unfoldable pub attempt_from : ℕ → ℕ → Bool → Attempted R
    unfolding temperature after_attempt
    attempt_from zero attempt hyphen_violation = record {
      ending = outcome none (attempt - 1) false;
      temperatures = [];
      retry_count = 0;
    }
    attempt_from (suc left) attempt hyphen_violation =
        after_attempt (produce attempt (temperature hyphen_violation attempt)) attempt
          hyphen_violation (temperature hyphen_violation attempt) (attempt_from left (attempt + 1))

    unfoldable pub attempt_chunk : Attempted R
    unfolding attempt_from
    attempt_chunk = attempt_from max_attempts 1 false

-- `ChunkBudget`. `remaining` may go below zero: it is an integer.
pub record ChunkBudget : Type 0 where
  pub remaining : ℤ

unfoldable pub spend : ChunkBudget → ℕ → ChunkBudget
spend b attempts = record { remaining = b.remaining -ℤ pos attempts }

unfoldable pub exhausted : ChunkBudget → Bool
exhausted b = leb_ℤ b.remaining (pos 0)

-- `min(cap, max(self.remaining, 0))`
unfoldable pub attempts_allowed : ChunkBudget → ℕ → ℕ
attempts_allowed b cap = min cap (pos_part b.remaining)
