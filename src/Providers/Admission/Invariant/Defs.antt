-- ===== src/Providers/Admission/Invariant/Defs.antt =====
-- What a caller at a suspension may rely on, as tests on the episode of the controller.
use free_claude_code_my_pr_i.Prelude.{
  ℕ, ◌≡◌, Bool, true, false, not, ◌&&◌, ◌||◌, Option, none, some, ◌==◌, is_some,
}
use free_claude_code_my_pr_i.Providers.Admission.State.{
  Controller, GatePermit, ordinary, probe, is_leader, contains,
}
use free_claude_code_my_pr_i.Providers.Admission.Task.{
  orphaned, released, releasing, closing, woken, Pc, idle, gate, blocked, leader_blocked, asleep,
  limited, queued, holding,
}
use free_claude_code_my_pr_i.Providers.Admission.System.{System, probing}

abbrev pub same : Bool → Bool → Bool
same true b = b
same false b = not b

-- The session leads the generation, whose probe is out or not, and which is not finished.
abbrev pub leads : ℕ → ℕ → Bool → Controller → Bool
leads s g active c = elim c.episode [
  | none ↦ false
  | some e ↦
      e.generation == g
      && (is_leader e.leader s && (same active e.probe_active && not (is_some e.terminal_until)))
]

abbrev pub other_leader : Option ℕ → ℕ → Bool
other_leader none s = false
other_leader (some l) s = not (l == s)

-- The session is listed as a waiter of the generation, which another session leads.
abbrev pub awaits : ℕ → ℕ → Controller → Bool
awaits s g c = elim c.episode [
  | none ↦ false
  | some e ↦
      e.generation == g
      && (other_leader e.leader s && (contains s e.waiters && not (is_some e.terminal_until)))
]

abbrev pub leads_permit : ℕ → GatePermit → Controller → Bool
leads_permit s ordinary c = true
leads_permit s (probe g) c = leads s g true c

abbrev pub fits : ℕ → Pc → Controller → Bool
fits s idle c = true
fits s gate c = true
fits s (woken g) c = true
fits s (blocked g) c = awaits s g c
fits s leader_blocked c = false
fits s (asleep g) c = leads s g false c
fits s (limited p) c = leads_permit s p c
fits s (queued p) c = leads_permit s p c
fits s (holding a) c = not a.closed && (a.resolved || leads_permit s a.permit c)
fits s (closing a) c = a.closed && leads_permit s a.permit c
fits s (releasing a) c = a.closed
fits s (released a) c = a.closed
fits s (orphaned p) c = leads_permit s p c

abbrev pub is_generation : Option ℕ → ℕ → Bool
is_generation none g = false
is_generation (some h) g = h == g

-- If the session leads an episode whose probe is out, it holds that probe.
abbrev pub holds : ℕ → Pc → Controller → Bool
holds s pc c = elim c.episode [
  | none ↦ true
  | some e ↦ not (is_leader e.leader s && e.probe_active) || is_generation (probing pc) e.generation
]

-- A probe that is out has a leader, and a finished episode has no probe out and no leader.
abbrev pub is_led : Controller → Bool
is_led c = elim c.episode [
  | none ↦ true
  | some e ↦
      (not e.probe_active || is_some e.leader)
      && (not (is_some e.terminal_until) || not (is_some e.leader))
]

pub record Inv (sys : System) : Type 0 where
  pub each : (s : ℕ) → fits s (sys.pc s) sys.controller ≡ true
  pub owned : (s : ℕ) → holds s (sys.pc s) sys.controller ≡ true
  pub led : is_led sys.controller ≡ true
