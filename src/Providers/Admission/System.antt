-- ===== src/Providers/Admission/System.antt =====
-- All callers of one controller of admission.py, interleaved at their suspensions. `notify_all`
-- makes every caller that waits on the condition go on when it runs next.
use free_claude_code_my_pr_i.Prelude.{
  ℕ, Bool, Option, none, some, List, [], ◌∷◌, ◌==◌, if◌then◌else◌,
}
use free_claude_code_my_pr_i.Providers.Admission.State.{Controller, GatePermit, ordinary, probe}
use free_claude_code_my_pr_i.Providers.Admission.Task.{
  orphaned, woken, closing, Pc, idle, gate, blocked, leader_blocked, limited, queued, holding,
  Action, section,
}

pub record System : Type 0 where
  pub controller : Controller
  pub pc : ℕ → Pc

abbrev pub wake : Pc → Pc
wake (blocked g) = woken g
wake leader_blocked = gate
wake pc = pc

abbrev pub after : ℕ → Pc → Bool → (ℕ → Pc) → ℕ → Pc
after s p notified pc j = if s == j then p else if notified then wake (pc j) else pc j

-- One section of the caller `s`.
unfoldable pub act : System → ℕ × Action → System
act sys (s, a) =
    let m = section s a (sys.pc s) sys.controller in
    record { controller = m.effect.controller; pc = after s m.pc m.effect.notified sys.pc }

unfoldable pub run : System → List (ℕ × Action) → System
run sys [] = sys
run sys (e ∷ es) = run (act sys e) es

-- A new controller, before anything was called.
unfoldable pub start : Controller → System
start c = record { controller = record c { episode = none; next_generation = 1 }; pc = λ _. idle }

-- The generation of the probe permit that a caller holds and has not resolved.
abbrev pub generation_of : GatePermit → Option ℕ
generation_of ordinary = none
generation_of (probe g) = some g

abbrev pub probing : Pc → Option ℕ
probing (limited p) = generation_of p
probing (queued p) = generation_of p
probing (holding a) = if a.resolved then none else generation_of a.permit
probing (closing a) = generation_of a.permit
probing (orphaned p) = generation_of p
probing _ = none
