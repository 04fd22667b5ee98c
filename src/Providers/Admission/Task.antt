-- ===== src/Providers/Admission/Task.antt =====
-- One caller of `open_attempt` of admission.py and the `ProviderAttempt` that it gets. A section is
-- what runs between two suspensions; `Pc` says at which suspension the caller stands.
use free_claude_code_my_pr_i.Prelude.{
  ℕ, ◌+◌, ◌-◌, Bool, true, false, ◌||◌, Option, none, some, ltb, if◌then◌else◌, is_some,
}
use free_claude_code_my_pr_i.Providers.Admission.State.{
  Controller, UpstreamError, GatePermit, can_attempt, claim_attempt, at_session,
}
use free_claude_code_my_pr_i.Providers.Admission.Gate.{
  is_abandoning, GateResult, granted, exhausted, waiting, leading, sleeping, wait_for_gate,
  claim_probe, cancel_waiter, abandon_waiting_leader, permit_is_current, matching_probe,
}
use free_claude_code_my_pr_i.Providers.Admission.Attempt.{
  close_episode, attempt_corrected, attempt_abandoned, attempt_failed, is_exhausting,
}

-- `ProviderAttempt`
pub record Attempt : Type 0 where
  pub permit : GatePermit
  pub resolved : Bool
  pub accepted : Bool
  pub failure_retryable : Option Bool
  pub closed : Bool

abbrev pub new_attempt : GatePermit → Attempt
new_attempt p = record {
  permit = p;
  resolved = false;
  accepted = false;
  failure_retryable = none;
  closed = false;
}

-- The controller after a section, and whether the section called `notify_all`.
pub record Effect : Type 0 where
  pub controller : Controller
  pub notified : Bool

abbrev pub unchanged : Controller → Effect
unchanged c = record { controller = c; notified = false }

-- A section that does nothing unless the permit is the active probe.
abbrev pub if_matching : ℕ → GatePermit → Controller → Controller → Effect
if_matching s p c c' = record { controller = c'; notified = is_some (matching_probe s p c) }

-- `ProviderAttempt.succeeded`
unfoldable pub succeeded : ℕ → Attempt → Controller → Attempt × Effect
succeeded s a c = if a.resolved then (a, unchanged c) else (
  record a { resolved = true; accepted = true },
  if_matching s a.permit c (close_episode s a.permit c),
)

-- `ProviderAttempt.retry_immediately`
unfoldable pub retry_immediately : ℕ → ℕ → Attempt → Controller → Attempt × Effect
retry_immediately now s a c = if a.resolved then (a, unchanged c) else (
  record a { resolved = true },
  if_matching s a.permit c (attempt_corrected now s a.permit c),
)

abbrev pub effective : UpstreamError → Option UpstreamError → UpstreamError
effective error none = error
effective error (some e) = e

-- What `ProviderAttempt.retry` reads: the clock, two draws of noise, and what the override of the
-- provider makes of the error.
pub record Failing : Type 0 where
  pub now : ℕ
  pub noise : ℕ
  pub terminal_noise : ℕ
  pub error : UpstreamError
  pub override : Option UpstreamError

-- The branch of `ProviderAttempt.retry` for an error that may be retried.
unfoldable pub retry_failed : Failing → ℕ → Attempt → Controller → Bool × Attempt × Effect
retry_failed f s a c =
    let (again, c') = attempt_failed f.now f.noise f.terminal_noise s a.permit f.error c in
    (
      again,
      record a { resolved = true; failure_retryable = some true },
      record { controller = c'; notified = again || is_exhausting s a.permit c },
    )

-- `ProviderAttempt.retry`: whether the execution may retry, with the rest.
unfoldable pub retry : Failing → ℕ → Attempt → Controller → Bool × Attempt × Effect
unfolding retry_failed
retry f s a c =
    if a.resolved
    then (false, a, unchanged c)
    else if (effective f.error f.override).retryable
    then retry_failed f s a c
    else (
      false,
      record a { resolved = true; failure_retryable = some false },
      if_matching s a.permit c (close_episode s a.permit c),
    )

-- `_release_concurrency`
abbrev pub release_concurrency : Controller → Controller
release_concurrency c = record c { slots = c.slots + 1 }

-- `ProviderAttempt.aclose` up to the shielded `_attempt_abandoned` of an attempt that is not resolved,
-- or as a whole
unfoldable pub aclose : Attempt → Controller → Attempt × Effect
aclose a c =
    if a.closed
    then (a, unchanged c)
    else (record a { closed = true }, unchanged (if a.resolved then release_concurrency c else c))

pub data Pc : Type 0 where
  idle : Pc  -- outside `open_attempt`, with no attempt open
  gate : Pc  -- before a section of `_wait_for_gate`
  woken : ℕ → Pc  -- notified in `self._condition.wait()`, as a waiter of a generation
  blocked : ℕ → Pc  -- in `self._condition.wait()`, as a waiter of a generation
  leader_blocked : Pc  -- in `self._condition.wait()`, as the leader
  asleep : ℕ → Pc  -- in `asyncio.sleep`, as the leader of a generation
  limited : GatePermit → Pc  -- in the rate limiter
  queued : GatePermit → Pc  -- in the semaphore
  holding : Attempt → Pc
  closing : Attempt → Pc  -- in `aclose`, while the shielded `_attempt_abandoned` is to run
  releasing : Attempt → Pc  -- in `aclose`, after it ran
  released : Attempt → Pc  -- outside `open_attempt`, with an attempt that was closed
  orphaned : GatePermit → Pc  -- cancelled in `aclose`, while `_attempt_abandoned` is still to run

-- What happens at a suspension: it goes on, or it is cancelled; and what a holder calls.
pub data Action : Type 0 where
  proceed : ℕ → Action
  cancel : ℕ → Action
  succeeds : Action
  corrects : ℕ → Action
  fails : Failing → Action
  closes : ℕ → Action

abbrev pub after_gate : GateResult → Pc
after_gate (granted p) = limited p
after_gate (exhausted e) = idle
after_gate (waiting g) = blocked g
after_gate leading = leader_blocked
after_gate (sleeping d g) = asleep g

abbrev pub after_claim : Option GatePermit → Pc
after_claim none = gate
after_claim (some p) = limited p

pub record Moved : Type 0 where
  pub pc : Pc
  pub effect : Effect

-- `_abandon_probe_permit`, on the way to `pc`
abbrev pub give_up : ℕ → ℕ → GatePermit → Controller → Pc → Moved
give_up now s p c pc = record { pc = pc; effect = if_matching s p c (attempt_abandoned now s p c) }

-- Where `aclose` of an attempt suspends, or that it has returned
abbrev pub after_close : Attempt → Attempt → Pc
after_close a a' = if a.closed || a.resolved then released a' else closing a'

-- `_attempt_abandoned` in `aclose`
abbrev pub abandon : ℕ → ℕ → GatePermit → Controller → Effect
abandon now s p c = if_matching s p c (attempt_abandoned now s p c)

-- After the semaphore: the permit is looked at again, and the attempt is claimed.
unfoldable pub take_slot : ℕ → ℕ → GatePermit → Controller → Moved
take_slot now s p c =
    if permit_is_current s p c
    then elim (claim_attempt (c.sessions s)) [
      | none ↦ give_up now s p c idle
      | some session ↦ record {
        pc = holding (new_attempt p);
        effect =
            unchanged
              (record c { slots = c.slots - 1; sessions = at_session c.sessions s session });
      }
    ]
    else give_up now s p c gate

-- The section that an action runs at a suspension; an action that does not fit there does nothing.
unfoldable pub section : ℕ → Action → Pc → Controller → Moved
unfolding take_slot
section s (proceed now) idle c = record {
  pc = if can_attempt (c.sessions s) then gate else idle;
  effect = unchanged c;
}
section s (proceed now) gate c =
    let (r, c') = wait_for_gate now s c in record { pc = after_gate r; effect = unchanged c' }
section s (cancel now) gate c = record { pc = idle; effect = unchanged c }
section s (proceed now) (woken g) c =
    let (r, c') = wait_for_gate now s c in record { pc = after_gate r; effect = unchanged c' }
section s (cancel now) (woken g) c = record { pc = idle; effect = unchanged (cancel_waiter s g c) }
section s (cancel now) (blocked g) c = record {
  pc = idle;
  effect = unchanged (cancel_waiter s g c);
}
section s (cancel now) leader_blocked c = record { pc = idle; effect = unchanged c }
section s (proceed now) (asleep g) c =
    let (r, c') = claim_probe s g c in record { pc = after_claim r; effect = unchanged c' }
section s (cancel now) (asleep g) c = record {
  pc = idle;
  effect = record { controller = abandon_waiting_leader s g c; notified = is_abandoning s g c };
}
section s (proceed now) (limited p) c =
    if permit_is_current s p c
    then record { pc = queued p; effect = unchanged c }
    else give_up now s p c gate
section s (cancel now) (limited p) c = give_up now s p c idle
section s (proceed now) (queued p) c =
    if ltb 0 c.slots then take_slot now s p c else record { pc = queued p; effect = unchanged c }
section s (cancel now) (queued p) c = give_up now s p c idle
section s succeeds (holding a) c =
    let (a', e) = succeeded s a c in record { pc = holding a'; effect = e }
section s (corrects now) (holding a) c =
    let (a', e) = retry_immediately now s a c in record { pc = holding a'; effect = e }
section s (fails f) (holding a) c =
    let (_, a', e) = retry f s a c in record { pc = holding a'; effect = e }
section s (closes now) (holding a) c =
    let (a', e) = aclose a c in record { pc = after_close a a'; effect = e }
section s (proceed now) (closing a) c = record {
  pc = releasing a;
  effect = abandon now s a.permit c;
}
section s (cancel now) (closing a) c = record {
  pc = orphaned a.permit;
  effect = unchanged (release_concurrency c);
}
section s (proceed now) (releasing a) c = record {
  pc = released a;
  effect = unchanged (release_concurrency c);
}
section s (cancel now) (releasing a) c = record {
  pc = released a;
  effect = unchanged (release_concurrency c);
}
section s (proceed now) (orphaned p) c = record { pc = idle; effect = abandon now s p c }
section s (closes now) (released a) c =
    let (a', e) = aclose a c in record { pc = after_close a a'; effect = e }
section s (proceed now) (released a) c = record {
  pc = if can_attempt (c.sessions s) then gate else released a;
  effect = unchanged c;
}
section s _ pc c = record { pc = pc; effect = unchanged c }
