-- ===== src/Examples/Retry.antt =====
-- Examples for Retry (core/retry.py, core/attempt.py).
use corrigenda.Base.{
  ℕ, ◌<◌, ◌≤◌, true, false, ◌≡◌, refl, [], ◌∷◌, All, drop, neg_part, pos, arith, ◌==◌,
  if◌then◌else◌,
}
use corrigenda.Policies.{temperature_for}
use corrigenda.Retry.{
  Exc, Attempt, raises, returns, attempt_chunk, attempt_from, ChunkBudget, spend, exhausted,
  attempts_allowed,
}
use corrigenda.Retry.Loop.{
  Accounts, IsCold, attempt_chunk-Accounts, IsCold-hyphen_integrity, attempts_allowed-spend,
}
use corrigenda.Examples.Samples.{fractions, default_retry}

-- A hyphen violation at first, then a malformed answer, then one that stands.
abbrev stumbling : ℕ → ℕ × ℕ → Attempt fractions ℕ
stumbling n t =
    if n == 1
    then raises Exc.hyphen_integrity []
    else if n == 2
    then raises Exc.value_error []
    else returns n

attempt_chunk-Accounts_example :
    Accounts fractions stumbling default_retry 3 1
      (attempt_chunk fractions stumbling default_retry 3)
attempt_chunk-Accounts_example =
    attempt_chunk-Accounts fractions stumbling default_retry 3 (omega arith)

attempt_chunk_test :
    (attempt_chunk fractions stumbling default_retry 3).temperatures ≡ (0, 1) ∷ (0, 1) ∷ (0, 1) ∷ []
unfolding attempt_chunk temperature_for
attempt_chunk_test = refl

IsCold-hyphen_integrity_example :
    All
      (IsCold fractions)
      (drop 1 (attempt_from fractions stumbling default_retry 3 3 1 false).temperatures)
IsCold-hyphen_integrity_example =
    IsCold-hyphen_integrity fractions stumbling default_retry 3 2 1 false [] refl

abbrev budget : ChunkBudget
budget = record { remaining = pos 2 }

attempts_allowed-spend_example :
    let allowed = attempts_allowed budget 3 in
    (allowed ≤ 3)
    × (neg_part (spend budget allowed).remaining ≡ neg_part budget.remaining)
    × (allowed < 3 → exhausted (spend budget allowed) ≡ true)
    × (0 < 3 → allowed ≡ 0 → exhausted budget ≡ true)
attempts_allowed-spend_example = attempts_allowed-spend budget 3
