-- ===== src/Providers/KeyRotation/Ends.antt =====
-- providers/openai_chat/key_rotation.py: how the fallback ends.
use free_claude_code_my_pr_i.Providers.KeyRotation.Attempt.{
  recorded, decide, Outcome-cases, loop-decide, chosen,
}
use free_claude_code_my_pr_i.Providers.KeyRotation.{states_of, ProviderCredentialPool}
use free_claude_code_my_pr_i.Providers.KeyRotation.Client.{
  Outcome, try_key, exhausted, cancelled_call, failed, cancelled, answered, raised, returned,
  fallback_loop, Fallback, Ending, call_with_fallback, Attempts,
}
use free_claude_code_my_pr_i.Prelude.{
  ℕ, zero, suc, ◌≤◌, ◌≡◌, refl, sym, ap, subst, ◌∙◌, inl, inr, Bool, true, false, false≢true,
  Option, none, some, List, [], ◌∷◌, arith, length, by_test,
}

-- The ending that an outcome of the last call makes
abbrev pub ending_of : {A E : Type 0} → Outcome A E → Ending A E
ending_of (answered a) = returned a
ending_of cancelled = cancelled_call
ending_of (failed e) = raised e

-- The calls with these keys, of the attempts from `t` on: the last one came to the ending, and each
-- one before it to an error that asks for another key.
abbrev pub Runs : {A E : Type 0} → Attempts A E → ℕ → List ℕ → Ending A E → Type 0
Runs w t [] r = ⊥
Runs w t (k ∷ []) r = ending_of (w.call t k) ≡ r
Runs {E = E} w t (k ∷ j ∷ ks) r =
    ((e : E) × (w.call t k ≡ failed e) × (w.is_credential_fallback_error e ≡ true))
    × Runs w (suc t) (j ∷ ks) r

-- Does the ending ask for another key?
abbrev pub asks_again : {A E : Type 0} → Attempts A E → Ending A E → Bool
asks_again w (returned a) = false
asks_again w cancelled_call = false
asks_again w (raised e) = w.is_credential_fallback_error e
asks_again w exhausted = false

-- How a fallback with `n` attempts from `t` on ends
abbrev pub Ended : {A E : Type 0} → Attempts A E → ℕ → ℕ → Fallback A E → Type 0
Ended w n t r =
    Runs w t r.tried r.ending
    × (length r.tried ≤ n)
    × (asks_again w r.ending ≡ true → length r.tried ≡ n)

module _ {A E : Type 0} (w : Attempts A E) where
  Runs-cons :
      (t k : ℕ) (ks : List ℕ) (r : Ending A E) (e : E)
      → w.call t k ≡ failed e
      → w.is_credential_fallback_error e ≡ true
      → Runs w (suc t) ks r
      → Runs w t (k ∷ ks) r
  Runs-cons t k [] r e bad pass runs = absurd runs
  Runs-cons t k (j ∷ ks) r e bad pass runs = ((e, bad, pass), runs)

  -- What follows an error that asks for another key
  Follows : ℕ → ℕ → Type 0
  Follows left t =
      (i : ℕ) (e : E) (q : ProviderCredentialPool)
      → w.call t i ≡ failed e
      → w.is_credential_fallback_error e ≡ true
      → Ended w (suc left) t (try_key i (fallback_loop w left (suc t) (some e) q))

  step-Ended :
      (left t : ℕ) (last : Option E) (p : ProviderCredentialPool)
      → Follows left t
      → Ended w (suc left) t (fallback_loop w (suc left) t last p)
  unfolding Follows
  step-Ended left t last p next =
      let i = (chosen w t p).0 in
      subst (Ended w (suc left) t) (sym (loop-decide w left t last p))
        (elim (Outcome-cases w (w.call t i)) [
          | inl (a, e) ↦
              subst (λ o. Ended w (suc left) t (decide w left t p o)) (sym e)
                (ap ending_of e, omega arith, λ again. absurd (cc again))
          | inr (inl e) ↦
              subst (λ o. Ended w (suc left) t (decide w left t p o)) (sym e)
                (ap ending_of e, omega arith, λ again. absurd (cc again))
          | inr (inr (e, bad)) ↦
              subst (λ o. Ended w (suc left) t (decide w left t p o)) (sym bad)
                (by_test (λ r. Ended w (suc left) t (try_key i r))
                  (w.is_credential_fallback_error e) _ _
                  (λ pass. next i e (recorded w t e p) bad pass)
                  (λ other. (
                    ap ending_of bad,
                    omega arith,
                    λ again. absurd (false≢true (sym other ∙ again)),
                  )))
        ])

  follows : (left t : ℕ) → Follows left t
  unfolding Follows fallback_loop
  follows zero t i e q bad pass = (ap ending_of bad, omega arith, λ _. refl)
  follows (suc left) t i e q bad pass =
      let rest = step-Ended left (suc t) (some e) q (follows left (suc t)) in
      let r = fallback_loop w (suc left) (suc t) (some e) q in
      (
        Runs-cons t i r.tried r.ending e bad pass rest.0,
        omega (arith, rest.1),
        λ again. ap suc (rest.2 again),
      )

-- Whatever other requests do to the pool meanwhile, the fallback ends with what its last call came to,
-- an answer, a cancellation or an error, and never with the error for a pool without keys. Every call
-- before it failed with an error that asks for another key. There are at most as many calls as keys,
-- and exactly as many when the error that is raised asks for another key.
pub fallback_ends :
    {A E : Type 0} (w : Attempts A E) (p : ProviderCredentialPool)
    → Ended w (length (states_of p)) 0 (call_with_fallback w p)
unfolding call_with_fallback
fallback_ends w p =
    step-Ended w (length p.other_states) 0 none p (follows w (length p.other_states) 0)
