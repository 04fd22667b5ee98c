-- ===== src/Providers/Admission/Safety/Slots.antt =====
-- The concurrency slots of admission.py: what the semaphore has left, and who holds the rest.
use free_claude_code_my_pr_i.Providers.Admission.Invariant.Steps.{act-Inv, start-Inv}
use free_claude_code_my_pr_i.Providers.Admission.Invariant.Defs.{Inv, fits}
use free_claude_code_my_pr_i.Providers.Admission.Gate.{
  leading, sleeping, waiting, exhausted, granted, claim_probe, cancel_waiter, wait_for_gate,
  abandon_waiting_leader, GateResult,
}
use free_claude_code_my_pr_i.Providers.Admission.Attempt.{
  attempt_corrected, close_episode, attempt_failed, attempt_abandoned,
}
use free_claude_code_my_pr_i.Providers.Admission.State.{UpstreamError, GatePermit, Controller}
use free_claude_code_my_pr_i.Providers.Admission.System.{System, act, run, start, wake, after}
use free_claude_code_my_pr_i.Providers.Admission.Task.{
  orphaned, released, releasing, woken, closing, after_close, Attempt, succeeds, closes, fails,
  corrects, cancel, proceed, gate, idle, Action, aclose, leader_blocked, queued, retry, limited,
  retry_immediately, after_gate, succeeded, asleep, blocked, Moved, section, holding, Pc,
}
use free_claude_code_my_pr_i.Prelude.{
  ℕ, zero, suc, ◌+◌, ◌≤◌, ◌<◌, ◌≡◌, refl, inl, inr, Bool, true, false, List, [], ◌∷◌, arith, ◌==◌,
  if◌then◌else◌, Bool-cases, All,
}

abbrev pub slots_held : Pc → ℕ
slots_held (holding a) = 1
slots_held (closing a) = 1
slots_held (releasing a) = 1
slots_held _ = 0

-- Over the first `n` callers.
pub total_held : ℕ → (ℕ → Pc) → ℕ
total_held zero pc = 0
total_held (suc n) pc = total_held n pc + slots_held (pc n)

slots_held-wake : (b : Bool) (pc : Pc) → slots_held (if b then wake pc else pc) ≡ slots_held pc
slots_held-wake b (blocked g) = ground arith
slots_held-wake b leader_blocked = ground arith
slots_held-wake b idle = ground arith
slots_held-wake b gate = ground arith
slots_held-wake b (asleep g) = ground arith
slots_held-wake b (limited p) = ground arith
slots_held-wake b (queued p) = ground arith
slots_held-wake b (holding a) = ground arith
slots_held-wake b (woken g) = ground arith
slots_held-wake b (closing a) = ground arith
slots_held-wake b (releasing a) = ground arith
slots_held-wake b (released a) = ground arith
slots_held-wake b (orphaned p) = ground arith

module _ (i : ℕ) (p : Pc) (b : Bool) (pc : ℕ → Pc) where
  total_held-after_ge : (n : ℕ) → n ≤ i → total_held n (after i p b pc) ≡ total_held n pc
  unfolding total_held
  total_held-after_ge zero h = refl
  total_held-after_ge (suc n) h = ground (arith, total_held-after_ge n, slots_held-wake b (pc n))

  total_held-after :
      (n : ℕ)
      → i < n
      → total_held n (after i p b pc) + slots_held (pc i) ≡ total_held n pc + slots_held p
  unfolding total_held
  total_held-after zero h = absurd (omega arith)
  total_held-after (suc n) h = elim (Bool-cases (i == n)) [
    | inl e ↦ ground (arith, total_held-after_ge n, slots_held-wake b (pc n))
    | inr ne ↦ ground (arith, total_held-after n, slots_held-wake b (pc n))
  ]

module _ (i : ℕ) (c : Controller) where
  slots-close_episode : (p : GatePermit) → (close_episode i p c).slots ≡ c.slots
  unfolding close_episode
  slots-close_episode p = ground arith

  slots-attempt_corrected :
      (now : ℕ) (p : GatePermit) → (attempt_corrected now i p c).slots ≡ c.slots
  unfolding attempt_corrected
  slots-attempt_corrected now p = ground arith

  slots-attempt_abandoned :
      (now : ℕ) (p : GatePermit) → (attempt_abandoned now i p c).slots ≡ c.slots
  unfolding attempt_abandoned
  slots-attempt_abandoned now p = ground arith

  slots-cancel_waiter : (g : ℕ) → (cancel_waiter i g c).slots ≡ c.slots
  unfolding cancel_waiter
  slots-cancel_waiter g = ground arith

  slots-abandon_waiting_leader : (g : ℕ) → (abandon_waiting_leader i g c).slots ≡ c.slots
  unfolding abandon_waiting_leader
  slots-abandon_waiting_leader g = ground arith

  slots-claim_probe : (g : ℕ) → (claim_probe i g c).1.slots ≡ c.slots
  unfolding claim_probe
  slots-claim_probe g = ground arith

  slots-wait_for_gate : (now : ℕ) → (wait_for_gate now i c).1.slots ≡ c.slots
  unfolding wait_for_gate
  slots-wait_for_gate now = ground arith

  slots-attempt_failed :
      (now noise noise' : ℕ) (p : GatePermit) (error : UpstreamError)
      → (attempt_failed now noise noise' i p error c).1.slots ≡ c.slots
  unfolding attempt_failed
  slots-attempt_failed now noise noise' p error = ground arith

  closes-Balanced :
      (t : Attempt)
      → t.closed ≡ false
      → (aclose t c).1.controller.slots + slots_held (after_close t (aclose t c).0) ≡ c.slots + 1
  unfolding aclose
  closes-Balanced t h = ground arith

  -- A second `aclose` gives nothing back.
  closed_again-Balanced :
      (t : Attempt)
      → t.closed ≡ true
      → (aclose t c).1.controller.slots + slots_held (after_close t (aclose t c).0) ≡ c.slots + 0
  unfolding aclose
  closed_again-Balanced t h = ground arith

  -- A section takes a slot when it begins to hold an attempt, and gives it back at the end.
  abbrev Balanced : Pc → Moved → Type 0
  Balanced pc m = m.effect.controller.slots + slots_held m.pc ≡ c.slots + slots_held pc

  held-after_gate : (r : GateResult) → slots_held (after_gate r) ≡ 0
  held-after_gate (granted p) = refl
  held-after_gate (exhausted e) = refl
  held-after_gate (waiting g) = refl
  held-after_gate leading = refl
  held-after_gate (sleeping d g) = refl

  section-Balanced : (a : Action) (pc : Pc) → fits i pc c ≡ true → Balanced pc (section i a pc c)
  unfolding section succeeded retry_immediately retry aclose
  section-Balanced (proceed now) idle f = ground arith
  section-Balanced (proceed now) gate f =
      omega (arith, slots-wait_for_gate now, held-after_gate (wait_for_gate now i c).0)
  section-Balanced (proceed now) (asleep g) f = ground (arith, slots-claim_probe g)
  section-Balanced (proceed now) (limited p) f = ground (arith, slots-attempt_abandoned now p)
  section-Balanced (proceed now) (queued p) f = ground (arith, slots-attempt_abandoned now p)
  section-Balanced (cancel now) (blocked g) f = omega (arith, slots-cancel_waiter g)
  section-Balanced (cancel now) (asleep g) f = omega (arith, slots-abandon_waiting_leader g)
  section-Balanced (cancel now) (limited p) f = omega (arith, slots-attempt_abandoned now p)
  section-Balanced (cancel now) (queued p) f = omega (arith, slots-attempt_abandoned now p)
  section-Balanced (cancel now) gate f = refl
  section-Balanced succeeds (holding t) f = ground (arith, slots-close_episode t.permit)
  section-Balanced (corrects now) (holding t) f =
      ground (arith, slots-attempt_corrected now t.permit)
  section-Balanced (fails x) (holding t) f = ground (
    arith,
    slots-close_episode t.permit,
    slots-attempt_failed x.now x.noise x.terminal_noise t.permit x.error,
  )
  section-Balanced (closes now) (holding t) f = closes-Balanced t (ground arith)
  section-Balanced (proceed now) (woken g) f =
      omega (arith, slots-wait_for_gate now, held-after_gate (wait_for_gate now i c).0)
  section-Balanced (cancel now) (woken g) f = omega (arith, slots-cancel_waiter g)
  section-Balanced (proceed now) (closing t) f = omega (arith, slots-attempt_abandoned now t.permit)
  section-Balanced (cancel now) (closing t) f = omega arith
  section-Balanced (proceed now) (releasing t) f = omega arith
  section-Balanced (cancel now) (releasing t) f = omega arith
  section-Balanced (proceed now) (orphaned p) f = omega (arith, slots-attempt_abandoned now p)
  section-Balanced (closes now) (released t) f = closed_again-Balanced t f
  section-Balanced (proceed now) (released t) f = ground arith
  section-Balanced _ leader_blocked f = cc
  section-Balanced _ pc f = refl

act-Balanced :
    (n : ℕ) (sys : System) (i : ℕ) (a : Action)
    → Inv sys
    → i < n
    → (act sys (i, a)).controller.slots + total_held n (act sys (i, a)).pc
      ≡ sys.controller.slots + total_held n sys.pc
unfolding act
act-Balanced n sys i a inv below =
    let m = section i a (sys.pc i) sys.controller in
    omega (
      arith,
      section-Balanced i sys.controller a (sys.pc i) (inv.each i),
      total_held-after i m.pc m.effect.notified sys.pc n below,
    )

run-Balanced :
    (n : ℕ) (sys : System) (es : List (ℕ × Action))
    → Inv sys
    → All (λ (e : ℕ × Action). e.0 < n) es
    → (run sys es).controller.slots + total_held n (run sys es).pc
      ≡ sys.controller.slots + total_held n sys.pc
unfolding run
run-Balanced n sys [] inv below = refl
run-Balanced n sys ((i, a) ∷ es) inv below = omega (
  arith,
  run-Balanced n (act sys (i, a)) es (act-Inv sys (i, a) inv) below.1,
  act-Balanced n sys i a inv below.0,
)

total_held-idle : (n : ℕ) → total_held n (λ _. idle) ≡ 0
unfolding total_held
total_held-idle zero = refl
total_held-idle (suc n) = omega (arith, total_held-idle n)

-- However `n` callers interleave, and whoever is cancelled, also while it closes an attempt, and
-- however often an attempt is closed: the slots that are left and the attempts that are open or being
-- closed always make up the slots that the controller began with, so no slot is lost, none is given
-- back twice, and never more attempts are open than there are slots.
pub slots_conserved :
    (c : Controller) (n : ℕ) (es : List (ℕ × Action))
    → All (λ (e : ℕ × Action). e.0 < n) es
    → ((run (start c) es).controller.slots + total_held n (run (start c) es).pc ≡ c.slots)
      × (total_held n (run (start c) es).pc ≤ c.slots)
unfolding start
slots_conserved c n es below =
    let kept = run-Balanced n (start c) es (start-Inv c) below in
    (omega (arith, kept, total_held-idle n), omega (arith, kept, total_held-idle n))
