-- ===== src/Providers/Admission/Safety/Exhaustion.antt =====
-- What the last failure of a probe does in admission.py.
use free_claude_code_my_pr_i.Providers.Admission.Delay.{retry_delay}
use free_claude_code_my_pr_i.Providers.Admission.Gate.{
  granted, matching_probe, exhausted, wait_for_gate,
}
use free_claude_code_my_pr_i.Providers.Admission.State.{
  probe, can_attempt, GatePermit, contains, fail_recovery, Controller, fail_all, Episode,
  UpstreamError,
}
use free_claude_code_my_pr_i.Providers.Admission.Attempt.{failed_for_good, attempt_failed, exhaust}
use free_claude_code_my_pr_i.Prelude.{ℕ, ◌+◌, ◌≤◌, ◌<◌, ◌≡◌, true, false, none, some, arith}

-- The controller after the last failure of a probe, and what its callers then see.
pub record IsExhausted (until : ℕ) (error : UpstreamError) (e : Episode) (c : Controller)
    : Type 0 where
  pub told : (w : ℕ) → contains w e.waiters ≡ true → (c.sessions w).terminal_error ≡ some error
  pub turned_away :
      (s t : ℕ)
      → (c.sessions s).terminal_error ≡ none
      → t < until
      → wait_for_gate t s c ≡ (exhausted error, c)
  pub reopened :
      (s t : ℕ)
      → (c.sessions s).terminal_error ≡ none
      → until ≤ t
      → (wait_for_gate t s c).0 ≡ granted (probe c.next_generation)

exhaust-IsExhausted :
    (until : ℕ) (error : UpstreamError) (e : Episode) (c : Controller)
    → IsExhausted until error e (exhaust until error e c)
unfolding exhaust fail_all fail_recovery wait_for_gate
exhaust-IsExhausted until error e c = record {
  told = λ w h. ground arith;
  turned_away = λ s t alive early. ground arith;
  reopened = λ s t alive late. ground arith;
}

failed_for_good-matching :
    (c : Controller) (now delay s : ℕ) (p : GatePermit) (error : UpstreamError) (e : Episode)
    → matching_probe s p c ≡ some e
    → failed_for_good now delay s p error c ≡ exhaust (now + delay) error e c
unfolding failed_for_good
failed_for_good-matching c now delay s p error e m = ground arith

-- When the probe of an episode fails and its session has no attempt left: each waiter is given the
-- error; until the retry delay is over, every other caller is turned away with it and changes
-- nothing; and the first caller after that gets the probe of a new generation.
pub last_failure_exhausts :
    (c : Controller) (now noise noise' s : ℕ) (p : GatePermit) (error : UpstreamError) (e : Episode)
    → can_attempt (c.sessions s) ≡ false
    → matching_probe s p c ≡ some e
    → IsExhausted
        (now + retry_delay c error (c.sessions s).attempts_started noise')
        error
        e
        (attempt_failed now noise noise' s p error c).1
unfolding attempt_failed
last_failure_exhausts c now noise noise' s p error e spent m =
    rw (spent, attempt_failed)
      (rw (failed_for_good-matching c now _ s p error e m) (exhaust-IsExhausted _ error e c))
