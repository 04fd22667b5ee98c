-- ===== src/Providers/Admission/Invariant/Own.antt =====
-- What a section of admission.py leaves to the caller that ran it.
use free_claude_code_my_pr_i.Providers.Admission.System.{probing}
use free_claude_code_my_pr_i.Providers.Admission.Invariant.Sets.{contains-add_self}
use free_claude_code_my_pr_i.Providers.Admission.Attempt.{
  attempt_failed, close_episode, attempt_corrected, attempt_abandoned,
}
use free_claude_code_my_pr_i.Providers.Admission.Gate.{
  permit_is_current, cancel_waiter, abandon_waiting_leader, claim_probe, wait_for_gate,
}
use free_claude_code_my_pr_i.Providers.Admission.Invariant.Defs.{
  awaits, leads_permit, leads, holds, fits, is_led,
}
use free_claude_code_my_pr_i.Providers.Admission.State.{
  ordinary, probe, at_session, Session, claim_attempt, GatePermit, Controller,
}
use free_claude_code_my_pr_i.Providers.Admission.Task.{
  orphaned, released, woken, closing, fails, Failing, closes, succeeds, corrects, holding, idle,
  Attempt, retry_immediately, queued, retry, aclose, succeeded, give_up, blocked, limited, Pc,
  cancel, asleep, proceed, gate, section, Moved,
}
use free_claude_code_my_pr_i.Prelude.{
  ℕ, ◌+◌, ◌-◌, ◌≡◌, refl, inl, inr, true, false, none, arith, ltb, Bool-cases, Option-cases,
}

-- What the section owes to its own caller.
pub record Leaves (s : ℕ) (m : Moved) : Type 0 where
  pub fit : fits s m.pc m.effect.controller ≡ true
  pub own : holds s m.pc m.effect.controller ≡ true
  pub led : is_led m.effect.controller ≡ true

module _ (s : ℕ) (c : Controller) (led : is_led c ≡ true) where
  claimed_permit :
      (p : GatePermit) (session : Session)
      → leads_permit s p
          (record c { slots = c.slots - 1; sessions = at_session c.sessions s session })
        ≡ leads_permit s p c
  claimed_permit ordinary session = refl
  claimed_permit (probe g) session = refl

  -- At the gate, a caller that leads has no probe out.
  pub gate-Leaves : (now : ℕ) → holds s gate c ≡ true → Leaves s (section s (proceed now) gate c)
  unfolding section wait_for_gate
  gate-Leaves now own = record {
    fit = grind (arith, contains-add_self s);
    own = ground arith;
    led = ground arith;
  }

  pub asleep-Leaves :
      (now g : ℕ) → leads s g false c ≡ true → Leaves s (section s (proceed now) (asleep g) c)
  unfolding section claim_probe
  asleep-Leaves now g h = record { fit = ground arith; own = ground arith; led = ground arith }

  pub cancel_sleep-Leaves :
      (now g : ℕ) → leads s g false c ≡ true → Leaves s (section s (cancel now) (asleep g) c)
  unfolding section abandon_waiting_leader
  cancel_sleep-Leaves now g h = record {
    fit = ground arith;
    own = ground arith;
    led = ground arith;
  }

  pub cancel_wait-Leaves :
      (now g : ℕ) → awaits s g c ≡ true → Leaves s (section s (cancel now) (blocked g) c)
  unfolding section cancel_waiter
  cancel_wait-Leaves now g h = record { fit = ground arith; own = ground arith; led = ground arith }

  -- A waiter that was woken stands at the gate, and so does its handler.
  pub woken-Leaves :
      (now g : ℕ) → holds s gate c ≡ true → Leaves s (section s (proceed now) (woken g) c)
  unfolding section
  woken-Leaves now g own =
      let at_gate = gate-Leaves now own in
      record { fit = at_gate.fit; own = at_gate.own; led = at_gate.led }

  pub cancel_woken-Leaves :
      (now g : ℕ) → holds s gate c ≡ true → Leaves s (section s (cancel now) (woken g) c)
  unfolding section cancel_waiter
  cancel_woken-Leaves now g own = record {
    fit = ground arith;
    own = ground arith;
    led = ground arith;
  }

  pub closing-Leaves :
      (now : ℕ) (a : Attempt)
      → fits s (closing a) c ≡ true
      → holds s (closing a) c ≡ true
      → Leaves s (section s (proceed now) (closing a) c)
  unfolding section attempt_abandoned
  closing-Leaves now a h own = record { fit = ground arith; own = ground arith; led = ground arith }

  pub cancel_close-Leaves :
      (now : ℕ) (a : Attempt)
      → fits s (closing a) c ≡ true
      → holds s (closing a) c ≡ true
      → Leaves s (section s (cancel now) (closing a) c)
  unfolding section
  cancel_close-Leaves now a h own = record {
    fit = leads_released a.permit (ground arith);
    own = own;
    led = led;
  }
    where
      leads_released :
          (p : GatePermit)
          → leads_permit s p c ≡ true
          → leads_permit s p (record c { slots = c.slots + 1 }) ≡ true
      leads_released ordinary l = refl
      leads_released (probe g) l = l

  pub orphaned-Leaves :
      (now : ℕ) (p : GatePermit)
      → fits s (orphaned p) c ≡ true
      → holds s (orphaned p) c ≡ true
      → Leaves s (section s (proceed now) (orphaned p) c)
  unfolding section attempt_abandoned
  orphaned-Leaves now p h own = record {
    fit = ground arith;
    own = ground arith;
    led = ground arith;
  }

  pub give_up-Leaves :
      (now : ℕ) (p : GatePermit) (pc : Pc)
      → leads_permit s p c ≡ true
      → holds s (limited p) c ≡ true
      → ((c' : Controller) → fits s pc c' ≡ true)
      → probing pc ≡ none
      → Leaves s (give_up now s p c pc)
  unfolding attempt_abandoned
  give_up-Leaves now p pc h own f n = record { fit = f _; own = ground arith; led = ground arith }

  pub limited-Leaves :
      (now : ℕ) (p : GatePermit)
      → leads_permit s p c ≡ true
      → holds s (limited p) c ≡ true
      → Leaves s (section s (proceed now) (limited p) c)
  unfolding section
  limited-Leaves now p h own = elim (Bool-cases (permit_is_current s p c)) [
    | inl current ↦ rw (current, section) (record { fit = h; own = own; led = led })
    | inr stale ↦ rw (stale, section) (give_up-Leaves now p gate h own (λ c'. refl) refl)
  ]

  pub queued-Leaves :
      (now : ℕ) (p : GatePermit)
      → leads_permit s p c ≡ true
      → holds s (queued p) c ≡ true
      → Leaves s (section s (proceed now) (queued p) c)
  unfolding section
  queued-Leaves now p h own = elim (Bool-cases (ltb 0 c.slots)) [
    | inr full ↦ rw (full, section) (record { fit = h; own = own; led = led })
    | inl room ↦ elim (Bool-cases (permit_is_current s p c)) [
      | inr stale ↦ rw (room, stale, section) (give_up-Leaves now p gate h own (λ c'. refl) refl)
      | inl current ↦ elim (Option-cases (claim_attempt (c.sessions s))) [
        | inl spent ↦
            rw (room, current, spent, section) (give_up-Leaves now p idle h own (λ c'. refl) refl)
        | inr (session, claimed) ↦
            rw (room, current, claimed, section)
              (record { fit = rw (claimed_permit p session) h; own = own; led = led })
      ]
    ]
  ]

  pub succeeds-Leaves :
      (a : Attempt)
      → fits s (holding a) c ≡ true
      → holds s (holding a) c ≡ true
      → Leaves s (section s succeeds (holding a) c)
  unfolding section succeeded close_episode
  succeeds-Leaves a h own = record { fit = ground arith; own = ground arith; led = ground arith }

  pub corrects-Leaves :
      (now : ℕ) (a : Attempt)
      → fits s (holding a) c ≡ true
      → holds s (holding a) c ≡ true
      → Leaves s (section s (corrects now) (holding a) c)
  unfolding section retry_immediately attempt_corrected
  corrects-Leaves now a h own = record {
    fit = ground arith;
    own = ground arith;
    led = ground arith;
  }

  pub fails-Leaves :
      (f : Failing) (a : Attempt)
      → fits s (holding a) c ≡ true
      → holds s (holding a) c ≡ true
      → Leaves s (section s (fails f) (holding a) c)
  unfolding section retry close_episode attempt_failed
  fails-Leaves f a h own = record { fit = ground arith; own = ground arith; led = ground arith }

  pub closes-Leaves :
      (now : ℕ) (a : Attempt)
      → fits s (holding a) c ≡ true
      → holds s (holding a) c ≡ true
      → Leaves s (section s (closes now) (holding a) c)
  unfolding section aclose
  closes-Leaves now a h own = elim (Bool-cases a.resolved) [
    | inl done ↦
        rw (done, section, aclose)
          (record { fit = ground arith; own = ground arith; led = ground arith })
    | inr open_ ↦
        rw (open_, section, aclose)
          (record { fit = ground arith; own = ground arith; led = ground arith })
  ]

  pub closed_again-Leaves :
      (now : ℕ) (a : Attempt)
      → fits s (released a) c ≡ true
      → holds s (released a) c ≡ true
      → Leaves s (section s (closes now) (released a) c)
  unfolding section aclose
  closed_again-Leaves now a h own =
      rw (h, section, aclose) (record { fit = refl; own = own; led = led })
