-- ===== src/Providers/Admission/Tests.antt =====
-- admission.py on concrete histories.
use free_claude_code_my_pr_i.Providers.Admission.Safety.Exhaustion.{
  last_failure_exhausts, IsExhausted,
}
use free_claude_code_my_pr_i.Providers.Admission.Safety.Recovery.{
  sleeper_gets_probe, one_probe, no_lost_wakeup, leader_must_return, IsAwaited,
}
use free_claude_code_my_pr_i.Providers.Admission.Safety.Slots.{slots_conserved, total_held}
use free_claude_code_my_pr_i.Providers.Admission.Safety.Budget.{attempts-le-budget}
use free_claude_code_my_pr_i.Providers.Admission.Invariant.Defs.{leads}
use free_claude_code_my_pr_i.Providers.Admission.Delay.{retry_delay_bounds, retry_delay}
use free_claude_code_my_pr_i.Providers.Admission.Attempt.{
  close_episode, attempt_abandoned, attempt_failed,
}
use free_claude_code_my_pr_i.Providers.Admission.Gate.{
  matching_probe, claim_probe, permit_is_current, wait_for_gate,
}
use free_claude_code_my_pr_i.Providers.Admission.System.{probing, System, act, run, start}
use free_claude_code_my_pr_i.Providers.Admission.Task.{
  succeeds, succeeded, cancel, limited, blocked, asleep, aclose, retry, section, closes, proceed,
  fails, Action,
}
use free_claude_code_my_pr_i.Providers.Admission.State.{
  probe, Episode, claim_attempt, can_attempt, UpstreamError, Controller, Session,
}
use free_claude_code_my_pr_i.Prelude.{
  ℕ, ◌+◌, ◌≤◌, ◌≡◌, refl, true, none, some, List, [], ◌∷◌, ◌++◌, arith,
}

abbrev overload : UpstreamError
overload = record { tag = 1; retryable = true; status = some 503; retry_after = none }

abbrev budget_of : ℕ → ℕ → Session
budget_of n i = record { max_attempts = n; attempts_started = 0; terminal_error = none }

-- Two slots, a base delay of 2 with a ceiling of 60, and sessions with two attempts each.
abbrev provider : Controller
provider = record {
  base_delay = 2;
  max_delay = 60;
  jitter = 1;
  slots = 2;
  episode = none;
  next_generation = 1;
  sessions = budget_of 2;
}

abbrev failing : ℕ → Action
failing t =
    fails (record { now = t; noise = 0; terminal_noise = 1; error = overload; override = none })

abbrev opening : ℕ → List (ℕ × Action)
opening s = (s, proceed 0) ∷ (s, proceed 0) ∷ (s, proceed 0) ∷ (s, proceed 0) ∷ []

-- Caller 0 fails at time 5 and leads; caller 1 comes and waits; caller 0 sleeps.
abbrev recovering : List (ℕ × Action)
recovering =
    opening 0
    ++ (0, failing 5)
      ∷ (0, closes 5)
      ∷ (1, proceed 5)
      ∷ (1, proceed 5)
      ∷ (0, proceed 5)
      ∷ (0, proceed 5)
      ∷ []

recovering_pcs :
    ((run (start provider) recovering).pc 0 ≡ asleep 1)
    × ((run (start provider) recovering).pc 1 ≡ blocked 1)
unfolding start run act section wait_for_gate retry attempt_failed retry_delay can_attempt
    claim_attempt permit_is_current aclose
recovering_pcs = (refl, refl)

-- Caller 0 then has the probe.
abbrev probing_history : List (ℕ × Action)
probing_history = recovering ++ (0, proceed 7) ∷ []

probing_pc : probing ((run (start provider) probing_history).pc 0) ≡ some 1
unfolding start run act section wait_for_gate retry attempt_failed retry_delay can_attempt
    claim_attempt permit_is_current aclose claim_probe
probing_pc = refl

one_probe_example :
    (◌≡◌ {A = ℕ} 0 0)
    × (◌≡◌ {A = ℕ} 1 1)
    × (leads 0 1 true (run (start provider) probing_history).controller ≡ true)
one_probe_example = one_probe provider probing_history 0 0 1 1 probing_pc probing_pc

no_lost_wakeup_example : IsAwaited 1 (run (start provider) recovering)
no_lost_wakeup_example = no_lost_wakeup provider recovering 1 1 recovering_pcs.1

sleeper_gets_probe_example :
    (act (run (start provider) recovering) (0, proceed 7)).pc 0 ≡ limited (probe 1)
sleeper_gets_probe_example = sleeper_gets_probe provider recovering 0 1 7 recovering_pcs.0

-- Caller 0 is cancelled while it closes an attempt, caller 1 closes its attempt twice.
abbrev closed_history : List (ℕ × Action)
closed_history =
    opening 0
    ++ (0, closes 5) ∷ (0, cancel 5) ∷ (0, proceed 6) ∷ opening 1
    ++ (1, succeeds) ∷ (1, closes 7) ∷ (1, closes 8) ∷ []

closed_slots : (run (start provider) closed_history).controller.slots ≡ 2
unfolding start run act section wait_for_gate can_attempt claim_attempt permit_is_current aclose
    succeeded matching_probe attempt_abandoned close_episode
closed_slots = refl

slots_conserved_example :
    ((run (start provider) closed_history).controller.slots
        + total_held 2 (run (start provider) closed_history).pc
      ≡ 2)
    × (total_held 2 (run (start provider) closed_history).pc ≤ 2)
slots_conserved_example = slots_conserved provider 2 closed_history (omega arith)

attempts-le-budget_example :
    ((run (start provider) recovering).controller.sessions 0).attempts_started ≤ 2
unfolding start
attempts-le-budget_example = attempts-le-budget (start provider) recovering 0 (omega arith)

-- Caller 0 is cancelled after its failure, before it comes back, and never returns.
abbrev stranded : System
stranded = run (start provider) (opening 0 ++ (0, failing 5) ∷ (0, closes 5) ∷ [])

leader_must_return_example :
    (act (run stranded ((1, proceed 100) ∷ [])) (1, proceed 1000)).pc 1 ≡ blocked 1
unfolding start run act section wait_for_gate retry attempt_failed retry_delay can_attempt
    claim_attempt permit_is_current aclose
leader_must_return_example =
    leader_must_return stranded 0 1 1 1000 ((1, proceed 100) ∷ []) refl ((λ e. omega arith), tt)
      (λ e. omega arith) refl refl

retry_delay_bounds_example :
    (2 ≤ retry_delay provider overload 3 1)
    × (0 ≤ retry_delay provider overload 3 1)
    × (retry_delay provider overload 3 1 ≤ 61)
retry_delay_bounds_example = retry_delay_bounds provider overload 3 1 (omega arith) (omega arith)

-- A probe whose session has no attempt left, with one waiter.
abbrev last_probe : Episode
last_probe = record {
  generation = 4;
  leader = some 0;
  ready_at = 0;
  last_error = overload;
  waiters = 1 ∷ [];
  probe_active = true;
  terminal_until = none;
}

abbrev spent : Controller
spent = record provider {
  episode = some last_probe;
  next_generation = 5;
  sessions = λ i. record { max_attempts = 2; attempts_started = 2; terminal_error = none };
}

last_failure_exhausts_example :
    IsExhausted
      (10 + retry_delay spent overload 2 1)
      overload
      last_probe
      (attempt_failed 10 0 1 0 (probe 4) overload spent).1
unfolding can_attempt matching_probe
last_failure_exhausts_example =
    last_failure_exhausts spent 10 0 1 0 (probe 4) overload last_probe refl refl
