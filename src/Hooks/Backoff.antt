-- ===== src/Hooks/Backoff.antt =====
-- When a failed delivery is tried again.
use qarax.Base.{ℕ, zero, suc, ◌+◌, ◌≤◌, ◌<◌, ◌≡◌, inl, inr, arith, leb, Bool-cases, Text}
use qarax.Hooks.{HookExecution}
use qarax.Hooks.Executor.{Mark, handle_failure, backoff_secs, min}

-- The delays of the attempts that fail.
backoff-bounds :
    (n : ℕ) → (30 ≤ backoff_secs (min (n + 1) 4)) × (backoff_secs (min (n + 1) 4) ≤ 1800)
unfolding backoff_secs
backoff-bounds zero = omega arith
backoff-bounds (suc zero) = omega arith
backoff-bounds (suc (suc zero)) = omega arith
backoff-bounds (suc (suc (suc n))) = rw (capped n) (omega arith)
  where
    capped : (m : ℕ) → min (suc (suc (suc m)) + 1) 4 ≡ 4
    capped m = ground arith

-- What becomes of an execution whose delivery failed.
pub data Outcome (now : ℕ) (e : HookExecution) (error : Text) : Mark → Type 0 where
  gives_up : e.max_attempts ≤ e.attempt_count + 1 → Outcome now e error (Mark.failed error)
  tries_again :
      (delay : ℕ)
      → e.attempt_count + 1 < e.max_attempts
      → 30 ≤ delay
      → delay ≤ 1800
      → Outcome now e error (Mark.retry error (now + delay))

-- After a failure the executor gives up where the attempts are used up, and else tries again after
-- 30 seconds to half an hour; it never waits only the 5 seconds that its table of delays starts with.
pub handle_failure-Outcome :
    (now : ℕ) (e : HookExecution) (error : Text) → Outcome now e error (handle_failure now e error)
unfolding handle_failure
handle_failure-Outcome now e error = elim (Bool-cases (leb e.max_attempts (e.attempt_count + 1))) [
  | inl t ↦ rw t (gives_up (ground (arith, t)))
  | inr f ↦ rw f (
      let b = backoff-bounds e.attempt_count in
      tries_again (backoff_secs (min (e.attempt_count + 1) 4)) (ground (arith, f)) b.0 b.1)
]
