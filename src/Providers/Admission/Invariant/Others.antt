-- ===== src/Providers/Admission/Invariant/Others.antt =====
-- No section of one caller disturbs what another relies on, unless it wakes the other up.
use free_claude_code_my_pr_i.Providers.Admission.Task.{Pc}
use free_claude_code_my_pr_i.Providers.Admission.Invariant.Sets.{contains-discard_ne, contains-add}
use free_claude_code_my_pr_i.Prelude.{ℕ, ◌≡◌, ◌≢◌, Bool, true, false, ◌||◌, arith, is_some}
use free_claude_code_my_pr_i.Providers.Admission.State.{UpstreamError, Controller, GatePermit}
use free_claude_code_my_pr_i.Providers.Admission.Gate.{
  is_abandoning, cancel_waiter, wait_for_gate, claim_probe, abandon_waiting_leader, matching_probe,
}
use free_claude_code_my_pr_i.Providers.Admission.Attempt.{
  is_exhausting, attempt_failed, attempt_corrected, attempt_abandoned, close_episode,
}
use free_claude_code_my_pr_i.Providers.Admission.Invariant.Defs.{holds, leads, awaits}

-- What a section of another session owes to the session `s`.
pub record Keeps (s : ℕ) (c c' : Controller) (notified : Bool) : Type 0 where
  pub lead : (g : ℕ) (active : Bool) → leads s g active c ≡ true → leads s g active c' ≡ true
  pub await : (g : ℕ) → awaits s g c ≡ true → notified ≡ false → awaits s g c' ≡ true
  pub hold : (pc : Pc) → holds s pc c ≡ true → holds s pc c' ≡ true

module _ (i s : ℕ) (i≢s : i ≢ s) (c : Controller) where
  pub close_episode-Keeps :
      (p : GatePermit) → Keeps s c (close_episode i p c) (is_some (matching_probe i p c))
  unfolding close_episode
  close_episode-Keeps p = record {
    lead = λ g active h. ground arith;
    await = λ g h n. ground arith;
    hold = λ pc h. ground arith;
  }

  pub attempt_corrected-Keeps :
      (now : ℕ) (p : GatePermit)
      → Keeps s c (attempt_corrected now i p c) (is_some (matching_probe i p c))
  unfolding attempt_corrected
  attempt_corrected-Keeps now p = record {
    lead = λ g active h. ground arith;
    await = λ g h n. ground arith;
    hold = λ pc h. ground arith;
  }

  pub attempt_abandoned-Keeps :
      (now : ℕ) (p : GatePermit)
      → Keeps s c (attempt_abandoned now i p c) (is_some (matching_probe i p c))
  unfolding attempt_abandoned
  attempt_abandoned-Keeps now p = record {
    lead = λ g active h. ground arith;
    await = λ g h n. ground arith;
    hold = λ pc h. ground arith;
  }

  pub cancel_waiter-Keeps : (g : ℕ) → Keeps s c (cancel_waiter i g c) false
  unfolding cancel_waiter
  cancel_waiter-Keeps g' = record {
    lead = λ g active h. ground arith;
    await = λ g h n. grind (arith, contains-discard_ne i s);
    hold = λ pc h. ground arith;
  }

  pub abandon_waiting_leader-Keeps :
      (g : ℕ) → Keeps s c (abandon_waiting_leader i g c) (is_abandoning i g c)
  unfolding abandon_waiting_leader
  abandon_waiting_leader-Keeps g' = record {
    lead = λ g active h. ground arith;
    await = λ g h n. ground arith;
    hold = λ pc h. ground arith;
  }

  pub claim_probe-Keeps : (g : ℕ) → Keeps s c (claim_probe i g c).1 false
  unfolding claim_probe
  claim_probe-Keeps g' = record {
    lead = λ g active h. ground arith;
    await = λ g h n. ground arith;
    hold = λ pc h. ground arith;
  }

  pub wait_for_gate-Keeps : (now : ℕ) → Keeps s c (wait_for_gate now i c).1 false
  unfolding wait_for_gate
  wait_for_gate-Keeps now = record {
    lead = λ g active h. ground arith;
    await = λ g h n. grind (arith, contains-add i s);
    hold = λ pc h. ground arith;
  }

  pub attempt_failed-Keeps :
      (now noise noise' : ℕ) (p : GatePermit) (error : UpstreamError)
      → let r = attempt_failed now noise noise' i p error c in
        Keeps s c r.1 (r.0 || is_exhausting i p c)
  unfolding attempt_failed
  attempt_failed-Keeps now noise noise' p error = record {
    lead = λ g active h. ground arith;
    await = λ g h n. ground arith;
    hold = λ pc h. ground arith;
  }
