-- ===== src/Providers/KeyRotation/Tests.antt =====
-- Key rotation at concrete inputs.
use free_claude_code_my_pr_i.Providers.KeyRotation.Fallback.{fallback_finds_key}
use free_claude_code_my_pr_i.Providers.KeyRotation.Cooling.{IsCold}
use free_claude_code_my_pr_i.Providers.KeyRotation.Ends.{Ended, fallback_ends, Ended}
use free_claude_code_my_pr_i.Providers.KeyRotation.Client.{
  failed, fallback_loop, answered, returned, Outcome, cancelled, Attempts, call_with_fallback,
}
use free_claude_code_my_pr_i.Providers.KeyRotation.{
  update_state, states_of, record_failure, sequential, healthy_from, listed, search_circle,
  select_round_robin, select_healthy, select, round_robin, ProviderCredentialPool, select_among,
}
use free_claude_code_my_pr_i.Providers.KeyRotation.Choice.{
  IsBest, cooldown_at, select-IsBest, IsBest,
}
use free_claude_code_my_pr_i.Prelude.{
  ℕ, String, ◌≡◌, refl, ◌≢◌, inl, true, [], ◌∷◌, arith, ◌==◌, if◌then◌else◌, by_test,
}

abbrev pool : ProviderCredentialPool
pool = record {
  strategy = round_robin;
  first_state = record { failures = 0; cooldown_until = 0 };
  other_states =
      record { failures = 1; cooldown_until = 90 }
      ∷ record { failures = 0; cooldown_until = 0 }
      ∷ [];
  round_robin_cursor = 1;
}

-- Key 1 is in its cooldown, so key 2 is next, and the cursor comes round.
skips : select 50 0 pool ≡ (2, record pool { round_robin_cursor = 0 })
unfolding select_among select_healthy select_round_robin search_circle listed healthy_from
skips = refl

select-IsBest_example : IsBest 50 pool (select 50 0 pool).0
select-IsBest_example = select-IsBest 50 0 pool

-- The second key of two answers.
abbrev attempts : Attempts String ℕ
attempts = record {
  now = λ t. 10;
  draw = λ t. 0;
  later = λ t. 10;
  call = λ t k. if k == 1 then answered "hello" else failed 401;
  others = λ t q. record q { round_robin_cursor = 1 };
  is_credential_fallback_error = λ e. true;
  cooldown_seconds = λ e n. 300;
}

abbrev two : ProviderCredentialPool
two = record {
  strategy = sequential;
  first_state = record { failures = 0; cooldown_until = 0 };
  other_states = record { failures = 0; cooldown_until = 0 } ∷ [];
  round_robin_cursor = 0;
}

tries_both : (call_with_fallback attempts two).tried ≡ 0 ∷ 1 ∷ []
unfolding call_with_fallback fallback_loop select_among select_healthy healthy_from record_failure
    update_state
tries_both = refl

not_cancelled : (t k : ℕ) → attempts.call t k ≢ cancelled
not_cancelled t k =
    by_test (λ (o : Outcome String ℕ). o ≢ cancelled) (k == 1) _ _ (λ _ e. cc e) (λ _ e. cc e)

second-IsCold : IsCold 10 1 (states_of two)
unfolding cooldown_at
second-IsCold = (0, refl, omega arith)

fallback_finds_key_example : (a : String) × ((call_with_fallback attempts two).ending ≡ returned a)
fallback_finds_key_example =
    fallback_finds_key attempts two 10 11 1 (λ t. omega arith) (λ t. omega arith)
      (λ t e n. omega arith) (λ t q. refl) (inl (omega arith), (inl (omega arith), tt))
      second-IsCold (λ t. ("hello", refl)) not_cancelled (λ t k e bad. refl)

fallback_ends_example : Ended attempts 2 0 (call_with_fallback attempts two)
fallback_ends_example = fallback_ends attempts two
