-- ===== src/Core/RateLimit/Tests.antt =====
-- rate_limit.py on concrete readings of the clock.
use free_claude_code_my_pr_i.Prelude.{
  ℕ, ◌≤◌, ◌<◌, ◌≡◌, refl, false, none, some, List, [], ◌∷◌, arith,
}
use free_claude_code_my_pr_i.Core.RateLimit.{Limiter, Reading, admitted, new, pass, serve}
use free_claude_code_my_pr_i.Core.RateLimit.Window.{count_within, serve_within_limit}
use free_claude_code_my_pr_i.Core.RateLimit.Progress.{wait_exact}

abbrev at : ℕ → Reading
at t = record { now = t; stamp = t; allowed = none }

abbrev refused_at : ℕ → Reading
refused_at t = record { now = t; stamp = t; allowed = some false }

abbrev two_in_ten : Limiter
two_in_ten = record { rate_limit = 2; rate_window = 10; times = [] }

abbrev burst : List Reading
burst = at 0 ∷ refused_at 1 ∷ at 3 ∷ at 4 ∷ at 10 ∷ at 12 ∷ []

burst_stamps : (serve two_in_ten burst).1 ≡ 0 ∷ 3 ∷ 10 ∷ []
unfolding serve pass
burst_stamps = refl

serve_within_limit_example : count_within 0 10 (serve two_in_ten burst).1 ≤ 2
unfolding new
serve_within_limit_example = serve_within_limit 2 10 0 burst (omega arith) {l = two_in_ten} refl

wait_exact_example :
    (0 < 6) × ((pass (pass (serve two_in_ten (at 0 ∷ at 3 ∷ [])).0 (at 4)).1 (at 10)).0 ≡ admitted)
unfolding new serve pass
wait_exact_example =
    wait_exact 2 10 6 (at 0 ∷ at 3 ∷ []) (at 4) (at 10) {l = two_in_ten} refl refl (omega arith)
      refl
