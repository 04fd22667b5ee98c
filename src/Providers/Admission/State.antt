-- ===== src/Providers/Admission/State.antt =====
-- The objects of admission.py. A session is named by a number, so `is` is equality of numbers, and
-- the controller holds the sessions; times and delays are numbers of ticks.
use free_claude_code_my_pr_i.Prelude.{
  ℕ, ◌+◌, ◌-◌, Bool, false, ◌||◌, Option, none, some, List, [], ◌∷◌, ltb, ◌==◌, if◌then◌else◌,
}

-- An upstream exception, with what failure_policy.py and the response headers say of it.
pub record UpstreamError : Type 0 where
  pub tag : ℕ
  pub retryable : Bool
  pub status : Option ℕ
  pub retry_after : Option ℕ

-- `ProviderRetrySession`
pub record Session : Type 0 where
  pub max_attempts : ℕ
  pub attempts_started : ℕ
  pub terminal_error : Option UpstreamError

-- The constructor raises if there is no attempt to make.
unfoldable pub new_session : ℕ → Option Session
new_session n =
    if ltb 0 n
    then some (record { max_attempts = n; attempts_started = 0; terminal_error = none })
    else none

unfoldable pub can_attempt : Session → Bool
can_attempt s = ltb s.attempts_started s.max_attempts

unfoldable pub attempts_remaining : Session → ℕ
attempts_remaining s = s.max_attempts - s.attempts_started

-- `none` is the `RuntimeError` of an exhausted session.
unfoldable pub claim_attempt : Session → Option Session
unfolding can_attempt
claim_attempt s =
    if can_attempt s then some (record s { attempts_started = s.attempts_started + 1 }) else none

unfoldable pub fail_recovery : UpstreamError → Session → Session
fail_recovery e s = record s { terminal_error = some e }

-- `_GatePermit`: the two forms that the code makes, `probe` with a generation and neither.
pub data GatePermit : Type 0 where
  ordinary : GatePermit
  probe : ℕ → GatePermit

-- `_RecoveryEpisode`; `waiters` is a set.
pub record Episode : Type 0 where
  pub generation : ℕ
  pub leader : Option ℕ
  pub ready_at : ℕ
  pub last_error : UpstreamError
  pub waiters : List ℕ
  pub probe_active : Bool
  pub terminal_until : Option ℕ

-- `ProviderAdmissionController`, without its rate limiter; `slots` is the semaphore's value.
pub record Controller : Type 0 where
  pub base_delay : ℕ
  pub max_delay : ℕ
  pub jitter : ℕ
  pub slots : ℕ
  pub episode : Option Episode
  pub next_generation : ℕ
  pub sessions : ℕ → Session

abbrev pub at_session : (ℕ → Session) → ℕ → Session → ℕ → Session
at_session m s v i = if s == i then v else m i

unfoldable pub contains : ℕ → List ℕ → Bool
contains s [] = false
contains s (x ∷ xs) = s == x || contains s xs

-- `set.add` and `set.discard`
unfoldable pub add : ℕ → List ℕ → List ℕ
unfolding contains
add s xs = if contains s xs then xs else s ∷ xs

unfoldable pub discard : ℕ → List ℕ → List ℕ
discard s [] = []
discard s (x ∷ xs) = let rest = discard s xs in if s == x then rest else x ∷ rest

-- `for waiter in episode.waiters: waiter._fail_recovery(error)`
unfoldable pub fail_all : UpstreamError → List ℕ → (ℕ → Session) → ℕ → Session
unfolding fail_recovery contains
fail_all e xs m i = if contains i xs then fail_recovery e (m i) else m i

-- `_start_recovery_episode`; the trace event is left out.
unfoldable pub start_recovery_episode :
    Option ℕ → ℕ → UpstreamError → Controller → Episode × Controller
start_recovery_episode leader ready_at last_error c =
    let e : Episode = record {
      generation = c.next_generation;
      leader = leader;
      ready_at = ready_at;
      last_error = last_error;
      waiters = [];
      probe_active = false;
      terminal_until = none;
    } in
    (e, record c { next_generation = c.next_generation + 1; episode = some e })

abbrev pub is_leader : Option ℕ → ℕ → Bool
is_leader none s = false
is_leader (some l) s = l == s
