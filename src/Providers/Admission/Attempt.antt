-- ===== src/Providers/Admission/Attempt.antt =====
-- What an attempt of admission.py does to the controller: one function for each method that
-- `ProviderAttempt` calls. `now` is the reading of the clock there. Log lines and trace events are
-- left out.
use free_claude_code_my_pr_i.Prelude.{
  ℕ, ◌+◌, Bool, true, false, not, ◌||◌, none, some, [], if◌then◌else◌, is_some,
}
use free_claude_code_my_pr_i.Providers.Admission.State.{
  Controller, UpstreamError, Episode, GatePermit, add, start_recovery_episode, fail_all,
  can_attempt, fail_recovery, at_session,
}
use free_claude_code_my_pr_i.Providers.Admission.Delay.{retry_delay}
use free_claude_code_my_pr_i.Providers.Admission.Gate.{matching_probe}

-- `_attempt_succeeded`, and `_attempt_rejected`, which differs in its trace event alone.
unfoldable pub close_episode : ℕ → GatePermit → Controller → Controller
unfolding matching_probe
close_episode s p c = elim (matching_probe s p c) [
  | none ↦ c
  | some e ↦ record c { episode = none }
]

-- `_attempt_corrected`
unfoldable pub attempt_corrected : ℕ → ℕ → GatePermit → Controller → Controller
unfolding matching_probe
attempt_corrected now s p c = elim (matching_probe s p c) [
  | none ↦ c
  | some e ↦ record c { episode = some (record e { probe_active = false; ready_at = now }) }
]

-- `_attempt_abandoned` and `_abandon_probe_permit`, which are the same
unfoldable pub attempt_abandoned : ℕ → ℕ → GatePermit → Controller → Controller
unfolding matching_probe
attempt_abandoned now s p c = elim (matching_probe s p c) [
  | none ↦ c
  | some e ↦ record c {
    episode = some (record e { leader = none; probe_active = false; ready_at = now });
  }
]

-- `_attempt_failed`, the branch for a session that has an attempt left
unfoldable pub failed_with_budget : ℕ → ℕ → ℕ → GatePermit → UpstreamError → Controller → Controller
unfolding matching_probe start_recovery_episode
failed_with_budget now delay s p error c = elim c.episode [
  | none ↦ (start_recovery_episode (some s) (now + delay) error c).1
  | some e ↦ elim (matching_probe s p c) [
    | some _ ↦ record c {
      episode =
          some (record e { last_error = error; probe_active = false; ready_at = now + delay });
    }
    | none ↦ elim e.terminal_until [
      | some _ ↦ record c {
        sessions = at_session c.sessions s (fail_recovery e.last_error (c.sessions s));
      }
      | none ↦ record c { episode = some (record e { waiters = add s e.waiters }) }
    ]
  ]
]

-- The end of an episode: every waiter is told, and new callers are turned away until the time.
unfoldable pub exhaust : ℕ → UpstreamError → Episode → Controller → Controller
exhaust until error e c = record c {
  episode = some (record e {
    last_error = error;
    leader = none;
    probe_active = false;
    terminal_until = some until;
    waiters = [];
  });
  sessions = fail_all error e.waiters c.sessions;
}

-- `_attempt_failed`, the branch for a session whose budget is used up
unfoldable pub failed_for_good : ℕ → ℕ → ℕ → GatePermit → UpstreamError → Controller → Controller
unfolding matching_probe start_recovery_episode exhaust
failed_for_good now delay s p error c = elim c.episode [
  | none ↦ let (e, c') = start_recovery_episode none now error c in exhaust (now + delay) error e c'
  | some e ↦ elim (matching_probe s p c) [ none ↦ c | some _ ↦ exhaust (now + delay) error e c ]
]

-- `_attempt_failed`: it returns whether the session has an attempt left. The code draws a second
-- noise for the terminal delay.
unfoldable pub attempt_failed :
    ℕ → ℕ → ℕ → ℕ → GatePermit → UpstreamError → Controller → Bool × Controller
unfolding failed_with_budget failed_for_good
attempt_failed now noise noise' s p error c =
    let n = (c.sessions s).attempts_started in
    if can_attempt (c.sessions s)
    then (true, failed_with_budget now (retry_delay c error n noise) s p error c)
    else (false, failed_for_good now (retry_delay c error n noise') s p error c)

-- Whether a failure that leaves no budget ends an episode, and so notifies.
abbrev pub is_exhausting : ℕ → GatePermit → Controller → Bool
is_exhausting s p c = not (is_some c.episode) || is_some (matching_probe s p c)
