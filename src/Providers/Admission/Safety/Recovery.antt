-- ===== src/Providers/Admission/Safety/Recovery.antt =====
-- The recovery episodes of admission.py.
use free_claude_code_my_pr_i.Providers.Admission.Gate.{wait_for_gate, claim_probe}
use free_claude_code_my_pr_i.Providers.Admission.Invariant.Steps.{section-Keeps, run-start-Inv}
use free_claude_code_my_pr_i.Providers.Admission.Invariant.Defs.{leads_permit, fits, leads, awaits}
use free_claude_code_my_pr_i.Providers.Admission.Task.{
  orphaned, woken, closing, leader_blocked, gate, section, idle, proceed, holding, queued, asleep,
  blocked, limited, Action, Pc,
}
use free_claude_code_my_pr_i.Providers.Admission.State.{
  ordinary, GatePermit, probe, contains, Episode, Controller,
}
use free_claude_code_my_pr_i.Providers.Admission.System.{
  generation_of, act, start, run, probing, System,
}
use free_claude_code_my_pr_i.Prelude.{
  ℕ, ◌≡◌, ◌≢◌, inl, inr, Bool, true, false, false≢true, none, some, List, [], ◌∷◌, arith,
  Option-cases, All,
}

permit_leads :
    (s g : ℕ) (q : GatePermit) (c : Controller)
    → leads_permit s q c ≡ true
    → generation_of q ≡ some g
    → leads s g true c ≡ true
permit_leads s g ordinary c l e = cc
permit_leads s g (probe h) c l e = ground arith

permit_of_probing :
    (s g : ℕ) (pc : Pc) (c : Controller)
    → fits s pc c ≡ true
    → probing pc ≡ some g
    → leads s g true c ≡ true
permit_of_probing s g (limited ordinary) c f p = cc
permit_of_probing s g (limited (probe h)) c f p = ground arith
permit_of_probing s g (queued ordinary) c f p = cc
permit_of_probing s g (queued (probe h)) c f p = ground arith
permit_of_probing s g (holding a) c f p = permit_leads s g a.permit c (ground arith) (ground arith)
permit_of_probing s g (closing a) c f p = permit_leads s g a.permit c (ground arith) p
permit_of_probing s g (orphaned q) c f p = permit_leads s g q c f p
permit_of_probing s g idle c f p = cc
permit_of_probing s g _ c f p = cc

leads_unique :
    (s t g h : ℕ) (c : Controller)
    → leads s g true c ≡ true
    → leads t h true c ≡ true
    → (s ≡ t) × (g ≡ h)
leads_unique s t g h c p q = ground arith

-- However the callers of a controller interleave, and whoever is cancelled: at most one of them
-- holds an unresolved probe permit, and it is the permit of the current generation, of which that
-- caller is the leader.
pub one_probe :
    (c : Controller) (es : List (ℕ × Action)) (s t g h : ℕ)
    → probing ((run (start c) es).pc s) ≡ some g
    → probing ((run (start c) es).pc t) ≡ some h
    → (s ≡ t) × (g ≡ h) × (leads s g true (run (start c) es).controller ≡ true)
one_probe c es s t g h p q =
    let inv = run-start-Inv c es in
    let a = permit_of_probing s g _ _ (inv.each s) p in
    let b = permit_of_probing t h _ _ (inv.each t) q in
    let u = leads_unique s t g h (run (start c) es).controller a b in (u.0, u.1, a)

-- A caller that waits on the condition is never forgotten.
pub record IsAwaited (s : ℕ) (sys : System) : Type 0 where
  pub episode : Episode
  pub leader : ℕ
  pub current : sys.controller.episode ≡ some episode
  pub led : episode.leader ≡ some leader
  pub other : leader ≢ s
  pub listed : contains s episode.waiters ≡ true
  pub unfinished : episode.terminal_until ≡ none
  pub awake : ((h : ℕ) → sys.pc leader ≢ blocked h) × (sys.pc leader ≢ leader_blocked)

awaits-inv :
    (s g : ℕ) (c : Controller)
    → awaits s g c ≡ true
    → (e : Episode) × (l : ℕ) × (c.episode ≡ some e)
      × (e.leader ≡ some l)
      × (l ≢ s)
      × (contains s e.waiters ≡ true)
      × (e.terminal_until ≡ none)
awaits-inv s g c h = elim (Option-cases c.episode) [
  | inl empty ↦ absurd (ground arith)
  | inr (e, p) ↦ elim (Option-cases e.leader) [
    | inl free ↦ absurd (ground arith)
    | inr (l, q) ↦ (e, l, p, q, ground arith, ground arith, ground arith)
  ]
]

leader-ne-awaits :
    (l g : ℕ) (e : Episode) (c : Controller)
    → c.episode ≡ some e
    → e.leader ≡ some l
    → awaits l g c ≢ true
leader-ne-awaits l g e c p q h = ground arith

-- However the callers interleave, and whoever is cancelled: while a caller waits on the condition,
-- an unfinished episode lists it among its waiters and has another caller as its leader, and that
-- leader does not wait on the condition itself.
pub no_lost_wakeup :
    (c : Controller) (es : List (ℕ × Action)) (s g : ℕ)
    → (run (start c) es).pc s ≡ blocked g
    → IsAwaited s (run (start c) es)
no_lost_wakeup c es s g b =
    let inv = run-start-Inv c es in
    let (e, l, p, q, ne, here, open_) =
      awaits-inv s g (run (start c) es).controller (rw b at (inv.each s)) in
    record {
      episode = e;
      leader = l;
      current = p;
      led = q;
      other = ne;
      listed = here;
      unfinished = open_;
      awake = (
        λ h w. leader-ne-awaits l h e (run (start c) es).controller p q (rw w at (inv.each l)),
        λ w. false≢true (rw w at (inv.each l)),
      );
    }

sleeper_claims :
    (sys : System) (s g now : ℕ)
    → sys.pc s ≡ asleep g
    → leads s g false sys.controller ≡ true
    → (act sys (s, proceed now)).pc s ≡ limited (probe g)
unfolding act section claim_probe
sleeper_claims sys s g now b h = rw (b, act, section) (ground arith)

-- A leader that slept until its probe was due always gets the probe, whatever happened meanwhile.
pub sleeper_gets_probe :
    (c : Controller) (es : List (ℕ × Action)) (s g now : ℕ)
    → (run (start c) es).pc s ≡ asleep g
    → (act (run (start c) es) (s, proceed now)).pc s ≡ limited (probe g)
sleeper_gets_probe c es s g now b =
    sleeper_claims (run (start c) es) s g now b (rw b at ((run-start-Inv c es).each s))

act-leads :
    (sys : System) (i l g : ℕ) (a : Action)
    → i ≢ l
    → leads l g false sys.controller ≡ true
    → leads l g false (act sys (i, a)).controller ≡ true
unfolding act
act-leads sys i l g a ne h = (section-Keeps i l ne sys.controller a (sys.pc i)).lead g false h

run-leads :
    (sys : System) (l g : ℕ) (es : List (ℕ × Action))
    → All (λ (e : ℕ × Action). e.0 ≢ l) es
    → leads l g false sys.controller ≡ true
    → leads l g false (run sys es).controller ≡ true
unfolding run
run-leads sys l g [] away h = h
run-leads sys l g ((i, a) ∷ es) away h =
    run-leads (act sys (i, a)) l g es away.1 (act-leads sys i l g a away.0 h)

-- At the gate, or woken up on the condition and so next at the gate
abbrev pub is_at_gate : Pc → Bool
is_at_gate gate = true
is_at_gate (woken g) = true
is_at_gate _ = false

gate_waits :
    (c : Controller) (pc : Pc) (s l g now : ℕ)
    → s ≢ l
    → is_at_gate pc ≡ true
    → (c.sessions s).terminal_error ≡ none
    → leads l g false c ≡ true
    → (section s (proceed now) pc c).pc ≡ blocked g
unfolding section wait_for_gate
gate_waits c gate s l g now ne at_gate alive h = ground arith
gate_waits c (woken w) s l g now ne at_gate alive h = ground arith
gate_waits c _ s l g now ne at_gate alive h = absurd (cc at_gate)

gate_blocks :
    (sys : System) (s l g now : ℕ)
    → s ≢ l
    → is_at_gate (sys.pc s) ≡ true
    → (sys.controller.sessions s).terminal_error ≡ none
    → leads l g false sys.controller ≡ true
    → (act sys (s, proceed now)).pc s ≡ blocked g
unfolding act
gate_blocks sys s l g now ne at_gate alive h =
    ground (arith, gate_waits sys.controller (sys.pc s) s l g now ne at_gate alive h)

-- Only the leader ends a recovery: as long as a leader with no probe out does nothing, nobody else
-- can replace it, whatever the others do and however late it is, and each of them that comes
-- through the gate (and was not told of an exhausted recovery) waits on the condition.
pub leader_must_return :
    (sys : System) (l s g now : ℕ) (es : List (ℕ × Action))
    → leads l g false sys.controller ≡ true
    → All (λ (e : ℕ × Action). e.0 ≢ l) es
    → s ≢ l
    → is_at_gate ((run sys es).pc s) ≡ true
    → ((run sys es).controller.sessions s).terminal_error ≡ none
    → (act (run sys es) (s, proceed now)).pc s ≡ blocked g
leader_must_return sys l s g now es h away ne at_gate alive =
    gate_blocks (run sys es) s l g now ne at_gate alive (run-leads sys l g es away h)
