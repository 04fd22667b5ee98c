-- ===== src/Providers/Credentials/Tests.antt =====
-- Runs of providers/credentials_provider.py.
use free_claude_code_my_pr_i.Providers.Credentials.Served.{
  served_within_quota, handed, Call, hand_out,
}
use free_claude_code_my_pr_i.Providers.Credentials.Quota.{
  mark_failure-Disables, round_robin_repeats, Disables,
}
use free_claude_code_my_pr_i.Providers.Credentials.{
  counter_of, reserve_within, current_counter, has_quota_and_reserve, try_keys, candidates, choose,
  backoff, is_enabled, sequential, round_robin, mark_failure, new_provider,
  RotatingCredentialProvider, next_key,
}
use free_claude_code_my_pr_i.Prelude.Dict
use free_claude_code_my_pr_i.Prelude.{ℕ, ◌≤◌, ◌≡◌, refl, none, some, [], ◌∷◌, arith}

abbrev clock : ℕ → ℕ
clock i = 100

abbrev limited : RotatingCredentialProvider
limited = new_provider ("a" ∷ "b" ∷ []) sequential (some 1) 60 3600

abbrev call : Call
call = record { clock = clock; shuffled = [] }

-- Each of the two keys is handed out once, and then none is left.
hands_out : hand_out (call ∷ call ∷ call ∷ []) limited ≡ some "a" ∷ some "b" ∷ none ∷ []
unfolding hand_out new_provider next_key choose candidates try_keys has_quota_and_reserve
    current_counter reserve_within counter_of is_enabled Dict.get Dict.put
hands_out = refl

served_within_quota_example : handed "a" (hand_out (call ∷ call ∷ call ∷ []) limited) ≤ 1
served_within_quota_example =
    served_within_quota 1 100 "a" (call ∷ call ∷ call ∷ []) limited (unfold new_provider in refl)
      (unfold new_provider Dict.get in refl)
      (unfold new_provider in
        (
          λ i. (omega arith, omega arith),
          (λ i. (omega arith, omega arith), (λ i. (omega arith, omega arith), tt)),
        ))

abbrev robin : RotatingCredentialProvider
robin = new_provider ("a" ∷ "b" ∷ []) round_robin none 60 3600

round_robin_repeats_example : next_key clock [] robin ≡ (some "a", robin)
unfolding new_provider
round_robin_repeats_example =
    round_robin_repeats clock [] "a" ("b" ∷ []) robin (unfold new_provider in refl)
      (unfold new_provider in refl) (unfold new_provider in refl)
      (unfold new_provider is_enabled Dict.get in refl)

mark_failure-Disables_example : Disables 100 4 "a" robin (mark_failure 100 2 "a" none robin)
unfolding backoff new_provider Dict.get
mark_failure-Disables_example = mark_failure-Disables 100 2 "a" none robin
