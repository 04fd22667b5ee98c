-- ===== src/Providers/KeyRotation/Client.antt =====
-- providers/openai_chat/key_rotation.py: `RotatingOpenAIClient._call_with_fallback`.
use free_claude_code_my_pr_i.Providers.KeyRotation.{
  record_failure, record_success, select, states_of, ProviderCredentialPool,
}
use free_claude_code_my_pr_i.Prelude.{
  ℕ, zero, suc, Bool, Option, none, some, List, [], ◌∷◌, if◌then◌else◌, length,
}

-- What one call of the provider comes to.
pub data Outcome (A E : Type 0) : Type 0 where
  answered : A → Outcome A E
  cancelled : Outcome A E
  failed : E → Outcome A E

-- How `_call_with_fallback` ends: `exhausted` is its RuntimeError.
pub data Ending (A E : Type 0) : Type 0 where
  returned : A → Ending A E
  cancelled_call : Ending A E
  raised : E → Ending A E
  exhausted : Ending A E

-- The ending, the pool that is left, and the keys that were tried, in order.
pub record Fallback (A E : Type 0) : Type 0 where
  pub ending : Ending A E
  pub pool : ProviderCredentialPool
  pub tried : List ℕ

-- What the attempts read: the clock and the draw of `select`, the clock of `record_failure`, the
-- outcome of the call with a key, what other requests do to the pool during the call, and what is
-- known of an error. The first argument counts attempts.
pub record Attempts (A E : Type 0) : Type 0 where
  pub now : ℕ → ℕ
  pub draw : ℕ → ℕ
  pub later : ℕ → ℕ
  pub call : ℕ → ℕ → Outcome A E
  pub others : ℕ → ProviderCredentialPool → ProviderCredentialPool
  pub is_credential_fallback_error : E → Bool
  pub cooldown_seconds : E → ℕ → ℕ

module _ {A E : Type 0} where
  -- After the loop
  abbrev pub raise_last : Option E → Ending A E
  raise_last none = exhausted
  raise_last (some e) = raised e

  abbrev pub try_key : ℕ → Fallback A E → Fallback A E
  try_key i r = record r { tried = i ∷ r.tried }

  abbrev pub ends : Ending A E → ProviderCredentialPool → Fallback A E
  ends ending p = record { ending = ending; pool = p; tried = [] }

  -- The loop, with the number of attempts that are left and the last error
  unfoldable pub fallback_loop :
      Attempts A E → ℕ → ℕ → Option E → ProviderCredentialPool → Fallback A E
  fallback_loop w zero t last p = ends (raise_last last) p
  fallback_loop w (suc left) t last p =
      let chosen = select (w.now t) (w.draw t) p in
      let shared = w.others t chosen.1 in
      try_key chosen.0 (elim (w.call t chosen.0) [
        | answered a ↦ ends (returned a) (record_success chosen.0 shared)
        | cancelled ↦ ends cancelled_call shared
        | failed e ↦
            let recorded = record_failure chosen.0 (w.cooldown_seconds e) (w.later t) shared in
            let rest = fallback_loop w left (suc t) (some e) recorded in
            if w.is_credential_fallback_error e then rest else ends (raised e) shared
      ])

  unfoldable pub call_with_fallback : Attempts A E → ProviderCredentialPool → Fallback A E
  call_with_fallback w p = fallback_loop w (length (states_of p)) 0 none p
