-- ===== src/Providers/Admission/Safety/Budget.antt =====
-- The attempt budget of a session of admission.py.
use free_claude_code_my_pr_i.Providers.Admission.System.{System, act, run}
use free_claude_code_my_pr_i.Providers.Admission.Task.{
  released, orphaned, closing, woken, succeeds, closes, fails, gate, corrects, blocked, holding,
  cancel, Attempt, aclose, limited, retry, queued, asleep, proceed, Pc, retry_immediately, Action,
  succeeded, Moved, section,
}
use free_claude_code_my_pr_i.Providers.Admission.Gate.{
  wait_for_gate, claim_probe, abandon_waiting_leader, cancel_waiter,
}
use free_claude_code_my_pr_i.Providers.Admission.Attempt.{
  attempt_abandoned, attempt_failed, attempt_corrected, close_episode,
}
use free_claude_code_my_pr_i.Providers.Admission.State.{
  claim_attempt, UpstreamError, fail_recovery, GatePermit, fail_all, Controller,
}
use free_claude_code_my_pr_i.Prelude.{ℕ, ◌≤◌, ◌≡◌, refl, ◌∙◌, List, [], ◌∷◌, arith}

-- The counters of every session are as they were.
record Unspent (c c' : Controller) : Type 0 where
  pub started : (s : ℕ) → (c'.sessions s).attempts_started ≡ (c.sessions s).attempts_started
  pub budget : (s : ℕ) → (c'.sessions s).max_attempts ≡ (c.sessions s).max_attempts

Unspent-refl : (c : Controller) → Unspent c c
Unspent-refl c = record { started = λ s. refl; budget = λ s. refl }

module _ (i : ℕ) (c : Controller) where
  close_episode-Unspent : (p : GatePermit) → Unspent c (close_episode i p c)
  unfolding close_episode
  close_episode-Unspent p = record { started = λ s. ground arith; budget = λ s. ground arith }

  attempt_corrected-Unspent : (now : ℕ) (p : GatePermit) → Unspent c (attempt_corrected now i p c)
  unfolding attempt_corrected
  attempt_corrected-Unspent now p = record {
    started = λ s. ground arith;
    budget = λ s. ground arith;
  }

  attempt_abandoned-Unspent : (now : ℕ) (p : GatePermit) → Unspent c (attempt_abandoned now i p c)
  unfolding attempt_abandoned
  attempt_abandoned-Unspent now p = record {
    started = λ s. ground arith;
    budget = λ s. ground arith;
  }

  cancel_waiter-Unspent : (g : ℕ) → Unspent c (cancel_waiter i g c)
  unfolding cancel_waiter
  cancel_waiter-Unspent g = record { started = λ s. ground arith; budget = λ s. ground arith }

  abandon_waiting_leader-Unspent : (g : ℕ) → Unspent c (abandon_waiting_leader i g c)
  unfolding abandon_waiting_leader
  abandon_waiting_leader-Unspent g = record {
    started = λ s. ground arith;
    budget = λ s. ground arith;
  }

  claim_probe-Unspent : (g : ℕ) → Unspent c (claim_probe i g c).1
  unfolding claim_probe
  claim_probe-Unspent g = record { started = λ s. ground arith; budget = λ s. ground arith }

  wait_for_gate-Unspent : (now : ℕ) → Unspent c (wait_for_gate now i c).1
  unfolding wait_for_gate
  wait_for_gate-Unspent now = record { started = λ s. ground arith; budget = λ s. ground arith }

  attempt_failed-Unspent :
      (now noise noise' : ℕ) (p : GatePermit) (error : UpstreamError)
      → Unspent c (attempt_failed now noise noise' i p error c).1
  unfolding attempt_failed fail_all fail_recovery
  attempt_failed-Unspent now noise noise' p error = record {
    started = λ s. ground arith;
    budget = λ s. ground arith;
  }

abbrev WithinBudget : ℕ → ℕ → Controller → Type 0
WithinBudget s n c =
    ((c.sessions s).attempts_started ≤ (c.sessions s).max_attempts)
    × ((c.sessions s).max_attempts ≡ n)

Unspent-Within :
    (s n : ℕ) (c c' : Controller) → Unspent c c' → WithinBudget s n c → WithinBudget s n c'
Unspent-Within s n c c' u h = (omega (arith, h.0, u.started s, u.budget s), u.budget s ∙ h.1)

module _ (i s n : ℕ) (c : Controller) (h : WithinBudget s n c) where
  abbrev Within : Moved → Type 0
  Within m = WithinBudget s n m.effect.controller

  queued-Within : (now : ℕ) (p : GatePermit) → Within (section i (proceed now) (queued p) c)
  unfolding section claim_attempt
  queued-Within now p = ground (
    arith,
    (attempt_abandoned-Unspent i c now p).started s,
    (attempt_abandoned-Unspent i c now p).budget s,
  )

  holding-Within : (a : Action) (t : Attempt) → Within (section i a (holding t) c)
  unfolding section succeeded retry_immediately retry aclose
  holding-Within succeeds t = ground (
    arith,
    (close_episode-Unspent i c t.permit).started s,
    (close_episode-Unspent i c t.permit).budget s,
  )
  holding-Within (corrects now) t = ground (
    arith,
    (attempt_corrected-Unspent i c now t.permit).started s,
    (attempt_corrected-Unspent i c now t.permit).budget s,
  )
  holding-Within (fails f) t =
      let failed = attempt_failed-Unspent i c f.now f.noise f.terminal_noise t.permit f.error in
      ground (
        arith,
        (close_episode-Unspent i c t.permit).started s,
        (close_episode-Unspent i c t.permit).budget s,
        failed.started s,
        failed.budget s,
      )
  holding-Within (closes now) t = ground arith
  holding-Within _ t = h

  section-Within : (a : Action) (pc : Pc) → Within (section i a pc c)
  unfolding section
  section-Within (proceed now) gate = Unspent-Within s n c _ (wait_for_gate-Unspent i c now) h
  section-Within (proceed now) (asleep g) = Unspent-Within s n c _ (claim_probe-Unspent i c g) h
  section-Within (proceed now) (limited p) = ground (
    arith,
    (attempt_abandoned-Unspent i c now p).started s,
    (attempt_abandoned-Unspent i c now p).budget s,
  )
  section-Within (proceed now) (queued p) = queued-Within now p
  section-Within (cancel now) (blocked g) = Unspent-Within s n c _ (cancel_waiter-Unspent i c g) h
  section-Within (cancel now) (asleep g) =
      Unspent-Within s n c _ (abandon_waiting_leader-Unspent i c g) h
  section-Within (cancel now) (limited p) =
      Unspent-Within s n c _ (attempt_abandoned-Unspent i c now p) h
  section-Within (cancel now) (queued p) =
      Unspent-Within s n c _ (attempt_abandoned-Unspent i c now p) h
  section-Within (proceed now) (woken g) = Unspent-Within s n c _ (wait_for_gate-Unspent i c now) h
  section-Within (cancel now) (woken g) = Unspent-Within s n c _ (cancel_waiter-Unspent i c g) h
  section-Within a (holding t) = holding-Within a t
  section-Within (proceed now) (closing t) =
      Unspent-Within s n c _ (attempt_abandoned-Unspent i c now t.permit) h
  section-Within (proceed now) (orphaned p) =
      Unspent-Within s n c _ (attempt_abandoned-Unspent i c now p) h
  section-Within (closes now) (released t) = unfold aclose in ground arith
  section-Within _ pc = h

run-Within :
    (sys : System) (es : List (ℕ × Action)) (s n : ℕ)
    → WithinBudget s n sys.controller
    → WithinBudget s n (run sys es).controller
unfolding run act
run-Within sys [] s n h = h
run-Within sys ((i, a) ∷ es) s n h =
    run-Within (act sys (i, a)) es s n (section-Within i s n sys.controller h a (sys.pc i))

-- However the callers interleave, a session never starts more upstream attempts than it was made
-- with: failures, corrections, shared recoveries and cancellations included.
pub attempts-le-budget :
    (sys : System) (es : List (ℕ × Action)) (s : ℕ)
    → (sys.controller.sessions s).attempts_started ≤ (sys.controller.sessions s).max_attempts
    → ((run sys es).controller.sessions s).attempts_started
      ≤ (sys.controller.sessions s).max_attempts
attempts-le-budget sys es s h =
    let (bound, kept) = run-Within sys es s (sys.controller.sessions s).max_attempts (h, refl) in
    omega (arith, bound, kept)
