-- ===== src/Providers/Admission/Gate.antt =====
-- The sections of `_wait_for_gate` of admission.py that hold the condition's lock, one function
-- each, with what happens to a caller between them as a value; and the tests on a permit.
use free_claude_code_my_pr_i.Prelude.{
  ℕ, ◌-◌, Bool, true, false, not, ◌&&◌, Option, none, some, ltb, ◌==◌, if◌then◌else◌, is_some,
}
use free_claude_code_my_pr_i.Providers.Admission.State.{
  Controller, UpstreamError, Episode, GatePermit, ordinary, probe, add, discard, is_leader,
  start_recovery_episode,
}

-- What a caller does next: it has a permit, it raises `ProviderRecoveryExhausted`, it waits on the
-- condition (as a waiter of an episode, or as its leader), or it sleeps as leader of a generation.
pub data GateResult : Type 0 where
  granted : GatePermit → GateResult
  exhausted : UpstreamError → GateResult
  waiting : ℕ → GateResult
  leading : GateResult
  sleeping : ℕ → ℕ → GateResult

-- `if episode.leader is None: episode.leader = session; episode.waiters.discard(session)`
unfoldable pub take_lead : ℕ → Episode → Episode
take_lead s e = elim e.leader [
  | none ↦ record e { leader = some s; waiters = discard s e.waiters }
  | some l ↦ e
]

-- From there to the end of the section.
unfoldable pub at_gate : ℕ → ℕ → Episode → Controller → GateResult × Controller
at_gate now s e c =
    if is_leader e.leader s
    then if e.probe_active
      then (leading, record c { episode = some e })
      else if e.ready_at - now == 0
      then (
        granted (probe e.generation),
        record c { episode = some (record e { probe_active = true }) },
      )
      else (sleeping (e.ready_at - now) e.generation, record c { episode = some e })
    else (
      waiting e.generation,
      record c { episode = some (record e { waiters = add s e.waiters }) },
    )

-- The part that has an episode: a finished one is replaced once its time is over.
unfoldable pub gate_episode : ℕ → ℕ → Episode → Controller → GateResult × Controller
unfolding take_lead at_gate start_recovery_episode
gate_episode now s e c = elim e.terminal_until [
  | none ↦ at_gate now s (take_lead s e) c
  | some t ↦
      if ltb now t
      then (exhausted e.last_error, c)
      else let (e', c') = start_recovery_episode (some s) now e.last_error c in
        at_gate now s (take_lead s e') c'
]

-- The first section of an iteration, with the test above it.
unfoldable pub wait_for_gate : ℕ → ℕ → Controller → GateResult × Controller
unfolding gate_episode
wait_for_gate now s c = elim (c.sessions s).terminal_error [
  | some error ↦ (exhausted error, c)
  | none ↦ elim c.episode [ none ↦ (granted ordinary, c) | some e ↦ gate_episode now s e c ]
]

-- The section after the sleep of a leader; without a permit the caller starts over.
unfoldable pub claim_probe : ℕ → ℕ → Controller → Option GatePermit × Controller
claim_probe s generation c = elim c.episode [
  | none ↦ (none, c)
  | some e ↦
      if e.generation == generation
        && not (is_some e.terminal_until)
        && is_leader e.leader s
        && not e.probe_active
      then (
        some (probe e.generation),
        record c { episode = some (record e { probe_active = true }) },
      )
      else (none, c)
]

-- The handler for a waiter that is cancelled on the condition.
unfoldable pub cancel_waiter : ℕ → ℕ → Controller → Controller
cancel_waiter s generation c = elim c.episode [
  | none ↦ c
  | some e ↦
      if e.generation == generation
      then record c { episode = some (record e { waiters = discard s e.waiters }) }
      else c
]

-- The test of `_abandon_waiting_leader`, under which it also notifies.
abbrev pub is_abandoning : ℕ → ℕ → Controller → Bool
is_abandoning s generation c = elim c.episode [
  | none ↦ false
  | some e ↦ e.generation == generation && is_leader e.leader s && not e.probe_active
]

-- `_abandon_waiting_leader`
unfoldable pub abandon_waiting_leader : ℕ → ℕ → Controller → Controller
abandon_waiting_leader s generation c = elim c.episode [
  | none ↦ c
  | some e ↦
      if e.generation == generation && is_leader e.leader s && not e.probe_active
      then record c { episode = some (record e { leader = none }) }
      else c
]

-- `_permit_is_current`
unfoldable pub permit_is_current : ℕ → GatePermit → Controller → Bool
permit_is_current s ordinary c = not (is_some c.episode)
permit_is_current s (probe g) c = elim c.episode [
  | none ↦ false
  | some e ↦
      e.generation == g && not (is_some e.terminal_until) && is_leader e.leader s && e.probe_active
]

-- `_matching_probe`: it does not ask whether the episode is finished.
unfoldable pub matching_probe : ℕ → GatePermit → Controller → Option Episode
matching_probe s ordinary c = none
matching_probe s (probe g) c = elim c.episode [
  | none ↦ none
  | some e ↦ if e.generation == g && is_leader e.leader s && e.probe_active then some e else none
]
