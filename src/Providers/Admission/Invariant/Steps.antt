-- ===== src/Providers/Admission/Invariant/Steps.antt =====
-- The invariant of the callers of admission.py, kept by every section of every caller.
use free_claude_code_my_pr_i.Providers.Admission.Invariant.Own.{
  closed_again-Leaves, orphaned-Leaves, cancel_close-Leaves, closing-Leaves, cancel_woken-Leaves,
  woken-Leaves, closes-Leaves, fails-Leaves, corrects-Leaves, succeeds-Leaves, queued-Leaves,
  give_up-Leaves, limited-Leaves, cancel_sleep-Leaves, asleep-Leaves, cancel_wait-Leaves,
  gate-Leaves, Leaves,
}
use free_claude_code_my_pr_i.Providers.Admission.System.{start, run, after, System, act, wake}
use free_claude_code_my_pr_i.Providers.Admission.Invariant.Defs.{
  Inv, is_led, leads_permit, fits, holds,
}
use free_claude_code_my_pr_i.Providers.Admission.Gate.{permit_is_current}
use free_claude_code_my_pr_i.Providers.Admission.Invariant.Others.{
  attempt_failed-Keeps, abandon_waiting_leader-Keeps, cancel_waiter-Keeps, attempt_corrected-Keeps,
  claim_probe-Keeps, close_episode-Keeps, wait_for_gate-Keeps, attempt_abandoned-Keeps, Keeps,
}
use free_claude_code_my_pr_i.Providers.Admission.Task.{
  orphaned, released, releasing, closing, woken, leader_blocked, gate, succeeds, idle, closes,
  effective, blocked, fails, cancel, corrects, asleep, holding, Attempt, Action, aclose, retry,
  queued, limited, retry_immediately, succeeded, Pc, proceed, Moved, section,
}
use free_claude_code_my_pr_i.Providers.Admission.State.{
  ordinary, probe, claim_attempt, GatePermit, Controller,
}
use free_claude_code_my_pr_i.Prelude.{
  ℕ, ◌≡◌, refl, subst, ◌≢◌, inl, inr, Bool, true, false, List, [], ◌∷◌, arith, ltb, ◌==◌,
  if◌then◌else◌, ==_iff, Bool-cases, Option-cases,
}

-- The controller is left with the episode that it had.
Keeps-same : (s : ℕ) (c c' : Controller) (n : Bool) → c'.episode ≡ c.episode → Keeps s c c' n
Keeps-same s c c' n e = record {
  lead = λ g active h. rw e h;
  await = λ g h _. rw e h;
  hold = λ pc h. rw e h;
}

module _ (i s : ℕ) (i≢s : i ≢ s) (c : Controller) where
  abbrev Kept : Moved → Type 0
  Kept m = Keeps s c m.effect.controller m.effect.notified

  limited-Keeps : (now : ℕ) (p : GatePermit) → Kept (section i (proceed now) (limited p) c)
  unfolding section
  limited-Keeps now p = elim (Bool-cases (permit_is_current i p c)) [
    | inl current ↦ rw (current, section) (Keeps-same s c c false refl)
    | inr stale ↦ rw (stale, section) (attempt_abandoned-Keeps i s i≢s c now p)
  ]

  queued-Keeps : (now : ℕ) (p : GatePermit) → Kept (section i (proceed now) (queued p) c)
  unfolding section
  queued-Keeps now p = elim (Bool-cases (ltb 0 c.slots)) [
    | inr full ↦ rw (full, section) (Keeps-same s c c false refl)
    | inl room ↦ elim (Bool-cases (permit_is_current i p c)) [
      | inr stale ↦ rw (room, stale, section) (attempt_abandoned-Keeps i s i≢s c now p)
      | inl current ↦ elim (Option-cases (claim_attempt (c.sessions i))) [
        | inl spent ↦ rw (room, current, spent, section) (attempt_abandoned-Keeps i s i≢s c now p)
        | inr (session, claimed) ↦
            rw (room, current, claimed, section) (Keeps-same s c _ false refl)
      ]
    ]
  ]

  closes-Keeps : (t : Attempt) → Keeps s c (aclose t c).1.controller (aclose t c).1.notified
  unfolding aclose
  closes-Keeps t = elim (Bool-cases t.closed) [
    | inl done ↦ rw (done, aclose) (Keeps-same s c c false refl)
    | inr open_ ↦ elim (Bool-cases t.resolved) [
      | inl resolved ↦ rw (open_, resolved, aclose) (Keeps-same s c _ false refl)
      | inr pending ↦ rw (open_, pending, aclose) (Keeps-same s c c false refl)
    ]
  ]

  holding-Keeps : (a : Action) (t : Attempt) → Kept (section i a (holding t) c)
  unfolding section succeeded retry_immediately retry aclose
  holding-Keeps succeeds t = elim (Bool-cases t.resolved) [
    | inl done ↦ rw (done, section, succeeded) (Keeps-same s c c false refl)
    | inr open_ ↦ rw (open_, section, succeeded) (close_episode-Keeps i s i≢s c t.permit)
  ]
  holding-Keeps (corrects now) t = elim (Bool-cases t.resolved) [
    | inl done ↦ rw (done, section, retry_immediately) (Keeps-same s c c false refl)
    | inr open_ ↦
        rw (open_, section, retry_immediately) (attempt_corrected-Keeps i s i≢s c now t.permit)
  ]
  holding-Keeps (fails f) t = elim (Bool-cases t.resolved) [
    | inl done ↦ rw (done, section, retry) (Keeps-same s c c false refl)
    | inr open_ ↦ elim (Bool-cases (effective f.error f.override).retryable) [
      | inl again ↦
          rw (open_, again, section, retry)
            (attempt_failed-Keeps i s i≢s c f.now f.noise f.terminal_noise t.permit f.error)
      | inr final ↦ rw (open_, final, section, retry) (close_episode-Keeps i s i≢s c t.permit)
    ]
  ]
  holding-Keeps (closes now) t = closes-Keeps t
  holding-Keeps _ t = Keeps-same s c c false refl

  pub section-Keeps : (a : Action) (pc : Pc) → Kept (section i a pc c)
  unfolding section
  section-Keeps (proceed now) idle = Keeps-same s c c false refl
  section-Keeps (proceed now) gate = wait_for_gate-Keeps i s i≢s c now
  section-Keeps (proceed now) (asleep g) = claim_probe-Keeps i s i≢s c g
  section-Keeps (proceed now) (limited p) = limited-Keeps now p
  section-Keeps (proceed now) (queued p) = queued-Keeps now p
  section-Keeps (cancel now) (blocked g) = cancel_waiter-Keeps i s i≢s c g
  section-Keeps (cancel now) (asleep g) = abandon_waiting_leader-Keeps i s i≢s c g
  section-Keeps (cancel now) (limited p) = attempt_abandoned-Keeps i s i≢s c now p
  section-Keeps (cancel now) (queued p) = attempt_abandoned-Keeps i s i≢s c now p
  section-Keeps (proceed now) (woken g) = wait_for_gate-Keeps i s i≢s c now
  section-Keeps (cancel now) (woken g) = cancel_waiter-Keeps i s i≢s c g
  section-Keeps a (holding t) = holding-Keeps a t
  section-Keeps (proceed now) (closing t) = attempt_abandoned-Keeps i s i≢s c now t.permit
  section-Keeps (cancel now) (closing t) = Keeps-same s c _ false refl
  section-Keeps (proceed now) (releasing t) = Keeps-same s c _ false refl
  section-Keeps (cancel now) (releasing t) = Keeps-same s c _ false refl
  section-Keeps (proceed now) (orphaned p) = attempt_abandoned-Keeps i s i≢s c now p
  section-Keeps (closes now) (released t) = closes-Keeps t
  section-Keeps (proceed now) (released t) = Keeps-same s c c false refl
  section-Keeps _ pc = Keeps-same s c c false refl

leads_permit-after :
    (s : ℕ) (p : GatePermit) (c c' : Controller) (n : Bool)
    → Keeps s c c' n
    → leads_permit s p c ≡ true
    → leads_permit s p c' ≡ true
leads_permit-after s ordinary c c' n k h = refl
leads_permit-after s (probe g) c c' n k h = k.lead g true h

-- What a caller relies on survives the section of another, which may have woken it up.
fits-after :
    (s : ℕ) (pc : Pc) (c c' : Controller) (n : Bool)
    → Keeps s c c' n
    → fits s pc c ≡ true
    → fits s (if n then wake pc else pc) c' ≡ true
fits-after s idle c c' n k h = ground arith
fits-after s gate c c' n k h = ground arith
fits-after s (blocked g) c c' true k h = refl
fits-after s (blocked g) c c' false k h = k.await g h refl
fits-after s leader_blocked c c' n k h = cc
fits-after s (asleep g) c c' n k h = ground (arith, k.lead g false h)
fits-after s (limited p) c c' n k h = ground (arith, leads_permit-after s p c c' n k h)
fits-after s (queued p) c c' n k h = ground (arith, leads_permit-after s p c c' n k h)
fits-after s (woken g) c c' n k h = ground arith
fits-after s (closing a) c c' n k h = ground (arith, leads_permit-after s a.permit c c' n k)
fits-after s (releasing a) c c' n k h = ground arith
fits-after s (released a) c c' n k h = ground arith
fits-after s (orphaned p) c c' n k h = ground (arith, leads_permit-after s p c c' n k h)
fits-after s (holding a) c c' n k h = ground (arith, leads_permit-after s a.permit c c' n k)

holds-wake : (s : ℕ) (pc : Pc) (c : Controller) → holds s (wake pc) c ≡ holds s pc c
holds-wake s (blocked g) c = refl
holds-wake s leader_blocked c = refl
holds-wake s _ c = refl

section-Leaves :
    (s : ℕ) (a : Action) (pc : Pc) (c : Controller)
    → is_led c ≡ true
    → fits s pc c ≡ true
    → holds s pc c ≡ true
    → Leaves s (section s a pc c)
unfolding section
section-Leaves s (proceed now) idle c l f h = record {
  fit = ground arith;
  own = ground arith;
  led = l;
}
section-Leaves s (proceed now) gate c l f h = gate-Leaves s c l now h
section-Leaves s (cancel now) gate c l f h = record { fit = refl; own = h; led = l }
section-Leaves s (cancel now) (blocked g) c l f h = cancel_wait-Leaves s c l now g f
section-Leaves s (proceed now) (asleep g) c l f h = asleep-Leaves s c l now g f
section-Leaves s (cancel now) (asleep g) c l f h = cancel_sleep-Leaves s c l now g f
section-Leaves s (proceed now) (limited p) c l f h = limited-Leaves s c l now p f h
section-Leaves s (cancel now) (limited p) c l f h =
    give_up-Leaves s c l now p idle f h (λ c'. refl) refl
section-Leaves s (proceed now) (queued p) c l f h = queued-Leaves s c l now p f h
section-Leaves s (cancel now) (queued p) c l f h =
    give_up-Leaves s c l now p idle f h (λ c'. refl) refl
section-Leaves s succeeds (holding a) c l f h = succeeds-Leaves s c l a f h
section-Leaves s (corrects now) (holding a) c l f h = corrects-Leaves s c l now a f h
section-Leaves s (fails x) (holding a) c l f h = fails-Leaves s c l x a f h
section-Leaves s (closes now) (holding a) c l f h = closes-Leaves s c l now a f h
section-Leaves s (proceed now) (woken g) c l f h = woken-Leaves s c l now g h
section-Leaves s (cancel now) (woken g) c l f h = cancel_woken-Leaves s c l now g h
section-Leaves s (proceed now) (closing a) c l f h = closing-Leaves s c l now a f h
section-Leaves s (cancel now) (closing a) c l f h = cancel_close-Leaves s c l now a f h
section-Leaves s (proceed now) (releasing a) c l f h = record { fit = f; own = h; led = l }
section-Leaves s (cancel now) (releasing a) c l f h = record { fit = f; own = h; led = l }
section-Leaves s (proceed now) (orphaned p) c l f h = orphaned-Leaves s c l now p f h
section-Leaves s (closes now) (released a) c l f h = closed_again-Leaves s c l now a f h
section-Leaves s (proceed now) (released a) c l f h = record {
  fit = ground arith;
  own = ground arith;
  led = l;
}
section-Leaves s _ leader_blocked c l f h = cc
section-Leaves s _ pc c l f h = record { fit = f; own = h; led = l }

-- What a section of the caller `i` leaves to every caller `s`, itself included.
module _ (sys : System) (i : ℕ) (a : Action) (inv : Inv sys) where
  abbrev moved : Moved
  moved = section i a (sys.pc i) sys.controller

  left : Leaves i moved
  left = section-Leaves i a (sys.pc i) sys.controller inv.led (inv.each i) (inv.owned i)

  fits-moved :
      (s : ℕ)
      → fits s (after i moved.pc moved.effect.notified sys.pc s) moved.effect.controller ≡ true
  fits-moved s = elim (Bool-cases (i == s)) [
    | inl e ↦
        rw e
          (subst (λ x. fits x moved.pc moved.effect.controller ≡ true) ((==_iff i s).0 e) left.fit)
    | inr ne ↦ rw ne (
        fits-after s (sys.pc s) sys.controller _ moved.effect.notified
          (section-Keeps i s (λ e. ground (arith, ne)) sys.controller a (sys.pc i)) (inv.each s))
  ]

  holds-moved :
      (s : ℕ)
      → holds s (after i moved.pc moved.effect.notified sys.pc s) moved.effect.controller ≡ true
  holds-moved s = elim (Bool-cases (i == s)) [
    | inl e ↦
        rw e
          (subst (λ x. holds x moved.pc moved.effect.controller ≡ true) ((==_iff i s).0 e) left.own)
    | inr ne ↦
        let kept =
          (section-Keeps i s (λ e. ground (arith, ne)) sys.controller a (sys.pc i)).hold (sys.pc s)
            (inv.owned s) in
        rw ne (ground (arith, kept, holds-wake s (sys.pc s) moved.effect.controller))
  ]

-- Every section of every caller keeps the invariant.
pub act-Inv : (sys : System) (e : ℕ × Action) → Inv sys → Inv (act sys e)
unfolding act
act-Inv sys (i, a) inv = record {
  each = fits-moved sys i a inv;
  owned = holds-moved sys i a inv;
  led = (left sys i a inv).led;
}

pub start-Inv : (c : Controller) → Inv (start c)
unfolding start
start-Inv c = record { each = λ s. refl; owned = λ s. refl; led = refl }

run-Inv : (sys : System) (es : List (ℕ × Action)) → Inv sys → Inv (run sys es)
unfolding run
run-Inv sys [] inv = inv
run-Inv sys (e ∷ es) inv = run-Inv (act sys e) es (act-Inv sys e inv)

pub run-start-Inv : (c : Controller) (es : List (ℕ × Action)) → Inv (run (start c) es)
run-start-Inv c es = run-Inv (start c) es (start-Inv c)
