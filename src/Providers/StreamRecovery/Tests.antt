-- ===== src/Providers/StreamRecovery/Tests.antt =====
-- Runs of providers/stream_recovery.py.
use free_claude_code_my_pr_i.Providers.StreamRecovery.Delivery.{
  fails, run-IsFaithful, pushes, run, Delivery, Action, IsFaithful,
}
use free_claude_code_my_pr_i.Providers.StreamRecovery.{Failure, new_buffer}
use free_claude_code_my_pr_i.Prelude.{ℕ, String, ◌≡◌, refl, true, false, List, [], ◌∷◌, arith}

abbrev size : String → ℕ
size event = 10

abbrev fresh : Delivery
fresh = record { buffer = new_buffer 75 25; sent = []; attempt = [] }

fresh-IsFaithful : IsFaithful size 25 fresh
unfolding new_buffer
fresh-IsFaithful = record {
  all_there = refl;
  unsent = λ e. refl;
  unheld = λ e. refl;
  counted = refl;
  limit = refl;
  below = omega arith;
}

abbrev cut_off : Failure
cut_off = record {
  retryable = true;
  stream_opened = true;
  generated_output = false;
  complete_tool_salvageable = false;
  attempts_remaining = 2;
}

-- The first attempt is cut off unseen; the third event of the second fills the buffer.
abbrev retried : List Action
retried = pushes 0 1 "a" ∷ fails cut_off ∷ pushes 5 5 "b" ∷ pushes 6 6 "c" ∷ pushes 7 7 "d" ∷ []

two_attempts_sent : (run size retried fresh).sent ≡ "b" ∷ "c" ∷ "d" ∷ []
unfolding run new_buffer
two_attempts_sent = refl

run-IsFaithful_example : IsFaithful size 25 (run size retried fresh)
run-IsFaithful_example = run-IsFaithful size 25 retried fresh (omega arith) fresh-IsFaithful
