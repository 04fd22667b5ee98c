-- ===== src/Providers/KeyRotation/Attempt.antt =====
-- providers/openai_chat/key_rotation.py: one attempt of the fallback.
use free_claude_code_my_pr_i.Providers.KeyRotation.Choice.{healthy_choice}
use free_claude_code_my_pr_i.Providers.KeyRotation.Cooling.{
  listed-IsCold, IsCold-listed, IsCold, IsSplit,
}
use free_claude_code_my_pr_i.Providers.KeyRotation.{
  least_used, chance, round_robin, record_success, sequential, search_circle, healthy, on_state,
  CredentialStrategy, KeyState, select_round_robin, states_of, listed, select, record_failure,
  update_state, ProviderCredentialPool, select_among, select_healthy,
}
use free_claude_code_my_pr_i.Providers.KeyRotation.Client.{
  cancelled_call, returned, cancelled, raised, try_key, answered, Fallback, ends, fallback_loop,
  failed, Outcome, Attempts,
}
use free_claude_code_my_pr_i.Prelude.{
  ℕ, zero, suc, ◌+◌, ◌%◌, ◌≤◌, ◌<◌, ◌≡◌, refl, sym, ap, subst, ◌⊎◌, inl, inr, true, false≢true,
  Option, some, List, [], ◌∷◌, arith, if◌then◌else◌, length, by_option,
}

pub select_among-listed :
    (l : List ℕ) (draw g : ℕ) (p : ProviderCredentialPool)
    → listed g l ≡ true
    → listed (select_among l draw p).0 l ≡ true
unfolding select_among listed
select_among-listed [] draw g p h = absurd (false≢true h)
select_among-listed (first ∷ rest) draw g p h = healthy_choice p.strategy p draw first rest

pub select_healthy-states :
    (strategy : CredentialStrategy) (draw first : ℕ) (rest : List ℕ) (p : ProviderCredentialPool)
    → states_of (select_healthy strategy draw first rest p).1 ≡ states_of p
unfolding select_healthy select_round_robin
select_healthy-states sequential draw first rest p = refl
select_healthy-states round_robin draw first rest p =
    let n = length (states_of p) in
    by_option (λ (r : ℕ × ProviderCredentialPool). states_of r.1 ≡ states_of p)
      (search_circle n 0 (p.round_robin_cursor % n) n (first ∷ rest)) _ _ (λ _. refl) (λ i e. refl)
select_healthy-states chance draw first rest p = refl
select_healthy-states least_used draw first rest p = refl

pub select_among-states :
    (l : List ℕ) (draw : ℕ) (p : ProviderCredentialPool)
    → states_of (select_among l draw p).1 ≡ states_of p
unfolding select_among
select_among-states [] draw p = refl
select_among-states (first ∷ rest) draw p = select_healthy-states p.strategy draw first rest p

pub on_state-states :
    (i : ℕ) (f : KeyState → KeyState) (p : ProviderCredentialPool)
    → states_of (on_state i f p) ≡ update_state i f (states_of p)
unfolding update_state
on_state-states zero f p = refl
on_state-states (suc i) f p = refl

-- When some key is cold, a cold key is chosen.
pub chosen-IsCold :
    (start horizon now draw g : ℕ) (p : ProviderCredentialPool)
    → start ≤ now
    → now < horizon
    → IsSplit start horizon (states_of p)
    → IsCold start g (states_of p)
    → IsCold start (select now draw p).0 (states_of p)
chosen-IsCold start horizon now draw g p a b split cold =
    let zero-add : 0 + g ≡ g = omega arith in
    let there = select_among-listed (healthy now p) draw g p (
      subst (λ i. listed i (healthy now p) ≡ true) zero-add
        (IsCold-listed start now 0 g (states_of p) a cold)) in
    let found =
      listed-IsCold start horizon now 0 (select now draw p).0 (states_of p) a b split there in
    let same : (select now draw p).0 ≡ found.0 = omega (arith, found.1) in
    subst (λ i. IsCold start i (states_of p)) (sym same) found.2

module _ {A E : Type 0} (w : Attempts A E) where
  pub Outcome-cases :
      (o : Outcome A E)
      → ((a : A) × (o ≡ answered a)) ⊎ ((o ≡ cancelled) ⊎ ((e : E) × (o ≡ failed e)))
  Outcome-cases (answered a) = inl (a, refl)
  Outcome-cases cancelled = inr (inl refl)
  Outcome-cases (failed e) = inr (inr (e, refl))

  abbrev pub chosen : ℕ → ProviderCredentialPool → ℕ × ProviderCredentialPool
  chosen t p = select (w.now t) (w.draw t) p

  -- The pool when the call is over
  abbrev pub shared : ℕ → ProviderCredentialPool → ProviderCredentialPool
  shared t p = w.others t (chosen t p).1

  abbrev pub recorded : ℕ → E → ProviderCredentialPool → ProviderCredentialPool
  recorded t e p = record_failure (chosen t p).0 (w.cooldown_seconds e) (w.later t) (shared t p)

  abbrev pub decide : ℕ → ℕ → ProviderCredentialPool → Outcome A E → Fallback A E
  decide left t p o = try_key (chosen t p).0 (elim o [
    | answered a ↦ ends (returned a) (record_success (chosen t p).0 (shared t p))
    | cancelled ↦ ends cancelled_call (shared t p)
    | failed e ↦
        if w.is_credential_fallback_error e
        then fallback_loop w left (suc t) (some e) (recorded t e p)
        else ends (raised e) (shared t p)
  ])

  pub loop-decide :
      (left t : ℕ) (last : Option E) (p : ProviderCredentialPool)
      → fallback_loop w (suc left) t last p ≡ decide left t p (w.call t (chosen t p).0)
  unfolding fallback_loop
  loop-decide left t last p = refl

  pub goes_on :
      (left t : ℕ) (e : E) (p : ProviderCredentialPool)
      → w.is_credential_fallback_error e ≡ true
      → (decide left t p (failed e)).ending
        ≡ (fallback_loop w left (suc t) (some e) (recorded t e p)).ending
  goes_on left t e p pass =
      ap
        (λ b.
          (if b
            then fallback_loop w left (suc t) (some e) (recorded t e p)
            else ends (raised e) (shared t p)).ending)
        pass
