-- ===== src/Providers/KeyRotation/Fallback.antt =====
-- providers/openai_chat/key_rotation.py: the fallback goes through the keys.
use free_claude_code_my_pr_i.Providers.KeyRotation.Attempt.{
  shared, goes_on, chosen-IsCold, decide, loop-decide, select_among-states, on_state-states,
  Outcome-cases, chosen, recorded,
}
use free_claude_code_my_pr_i.Providers.KeyRotation.Cooling.{
  update-IsCold, update-IsSplit, cold_count-le, update-count, IsCold-count, cold_count, IsCold,
  IsSplit,
}
use free_claude_code_my_pr_i.Providers.KeyRotation.{
  healthy, update_state, states_of, record_failure, KeyState, ProviderCredentialPool,
}
use free_claude_code_my_pr_i.Providers.KeyRotation.Client.{
  returned, fallback_loop, failed, cancelled, answered, call_with_fallback, Attempts,
}
use free_claude_code_my_pr_i.Prelude.{
  ℕ, zero, suc, ◌+◌, ◌≤◌, ◌<◌, max, ◌≡◌, sym, ap, subst, ◌∙◌, ◌≢◌, inl, inr, true, false, Option,
  none, some, List, arith, ◌==◌, ==_iff, Bool-cases, length,
}

module _ {A E : Type 0} (w : Attempts A E) where
  module _ (start horizon : ℕ) (begun : (t : ℕ) → start ≤ w.now t)
      (soon : (t : ℕ) → w.now t < horizon)
      (lasting : (t : ℕ) (e : E) (n : ℕ) → horizon ≤ w.later t + w.cooldown_seconds e n)
      (calm : (t : ℕ) (q : ProviderCredentialPool) → states_of (w.others t q) ≡ states_of q) where
    abbrev fail : ℕ → E → KeyState → KeyState
    fail t e s = record {
      failures = s.failures + 1;
      cooldown_until = max s.cooldown_until (w.later t + w.cooldown_seconds e (s.failures + 1));
    }

    fail_hot : (t : ℕ) (e : E) (s : KeyState) → horizon ≤ (fail t e s).cooldown_until
    fail_hot t e s = let long = lasting t e (s.failures + 1) in omega arith

    fail_later : (t : ℕ) (e : E) (s : KeyState) → start < (fail t e s).cooldown_until
    fail_later t e s = let hot = fail_hot t e s in let a = begun t in let b = soon t in omega arith

    fewer_cold :
        (t i : ℕ) (e : E) (states : List KeyState) (left : ℕ)
        → IsCold start i states
        → cold_count start states ≤ suc left
        → cold_count start (update_state i (fail t e) states) ≤ left
    fewer_cold t i e states left cold enough =
        let one_less = update-count start (fail t e) (fail_later t e) i states cold in omega arith

    recorded-states :
        (t : ℕ) (e : E) (p : ProviderCredentialPool)
        → states_of (recorded w t e p) ≡ update_state (chosen w t p).0 (fail t e) (states_of p)
    unfolding record_failure
    recorded-states t e p =
        on_state-states (chosen w t p).0 (fail t e) (shared w t p)
        ∙ ap (update_state (chosen w t p).0 (fail t e)) (calm t (chosen w t p).1)
        ∙ ap (update_state (chosen w t p).0 (fail t e))
            (select_among-states (healthy (w.now t) p) (w.draw t) p)

    module _ (g : ℕ) (answers : (t : ℕ) → (a : A) × (w.call t g ≡ answered a))
        (going : (t k : ℕ) → w.call t k ≢ cancelled)
        (passing : (t k : ℕ) (e : E)
          → w.call t k ≡ failed e
          → w.is_credential_fallback_error e ≡ true) where
      fails_elsewhere : (t k : ℕ) (e : E) → w.call t k ≡ failed e → (g == k) ≡ false
      fails_elsewhere t k e bad = elim (Bool-cases (g == k)) [
        | inl same ↦
            let both = sym (answers t).1 ∙ ap (w.call t) ((==_iff g k).0 same) ∙ bad in
            absurd (cc both)
        | inr other ↦ other
      ]

      loop_finds :
          (left t : ℕ) (last : Option E) (p : ProviderCredentialPool)
          → IsSplit start horizon (states_of p)
          → IsCold start g (states_of p)
          → cold_count start (states_of p) ≤ left
          → (a : A) × ((fallback_loop w left t last p).ending ≡ returned a)
      loop_finds zero t last p split cold enough =
          let some_left = IsCold-count start g (states_of p) cold in absurd (omega arith)
      loop_finds (suc left) t last p split cold enough =
          let i = (chosen w t p).0 in
          elim (Outcome-cases w (w.call t i)) [
            | inl (a, e) ↦ (
              a,
              ap (λ r. r.ending) (loop-decide w left t last p)
                  ∙ ap (λ o. (decide w left t p o).ending) e,
            )
            | inr (inl stop) ↦ absurd (going t i stop)
            | inr (inr (e, failed_with)) ↦
                let frozen =
                  chosen-IsCold start horizon (w.now t) (w.draw t) g p (begun t) (soon t) split
                    cold in
                let states = recorded-states t e p in
                let rest =
                  loop_finds left (suc t) (some e) (recorded w t e p)
                    (subst (IsSplit start horizon) (sym states) (
                      update-IsSplit start horizon (fail t e) (fail_hot t e) i (states_of p) split))
                    (subst (IsCold start g) (sym states) (
                      update-IsCold start (fail t e) (fail_later t e) i g (states_of p)
                        (fails_elsewhere t i e failed_with) cold))
                    (subst (λ ss. cold_count start ss ≤ left) (sym states)
                      (fewer_cold t i e (states_of p) left frozen enough)) in
                (
                  rest.0,
                  ap (λ r. r.ending) (loop-decide w left t last p)
                      ∙ ap (λ o. (decide w left t p o).ending) failed_with
                      ∙ goes_on w left t e p (passing t i e failed_with)
                      ∙ rest.1,
                )
          ]

-- When one key answers whenever it is called and is out of its cooldown at the start, and the other
-- calls fail with errors that ask for another key, then the fallback returns an answer: it does not
-- stop before it gets to that key. The clock moves from `start` to before `horizon` during the call,
-- and no cooldown that is set meanwhile ends before `horizon`, nor does one that runs at the start.
-- Other requests may move the cursor of the round robin during the calls, and leave the keys as they
-- are.
pub fallback_finds_key :
    {A E : Type 0} (w : Attempts A E) (p : ProviderCredentialPool) (start horizon g : ℕ)
    → ((t : ℕ) → start ≤ w.now t)
    → ((t : ℕ) → w.now t < horizon)
    → ((t : ℕ) (e : E) (n : ℕ) → horizon ≤ w.later t + w.cooldown_seconds e n)
    → ((t : ℕ) (q : ProviderCredentialPool) → states_of (w.others t q) ≡ states_of q)
    → IsSplit start horizon (states_of p)
    → IsCold start g (states_of p)
    → ((t : ℕ) → (a : A) × (w.call t g ≡ answered a))
    → ((t k : ℕ) → w.call t k ≢ cancelled)
    → ((t k : ℕ) (e : E) → w.call t k ≡ failed e → w.is_credential_fallback_error e ≡ true)
    → (a : A) × ((call_with_fallback w p).ending ≡ returned a)
unfolding call_with_fallback
fallback_finds_key w p start horizon g begun soon lasting calm split cold answers going passing =
    loop_finds w start horizon begun soon lasting calm g answers going passing
      (length (states_of p)) 0 none p split cold (cold_count-le start (states_of p))
