-- ===== src/Providers/KeyRotation.antt =====
-- providers/openai_chat/key_rotation.py: `ProviderCredentialPool`, and the fallback over its keys.
pub mod Attempt
pub mod Choice
pub mod Client
pub mod Cooling
pub mod Ends
pub mod Fallback
pub mod Tests
use free_claude_code_my_pr_i.Prelude.{
  ℕ, zero, suc, ◌+◌, ◌-◌, ◌*◌, ◌/◌, ◌%◌, ◌^◌, ◌≤◌, ◌<◌, min, max, String, ◌≡◌, refl, sym, ap, subst,
  ◌∙◌, ◌≢◌, ◌↔◌, ◌⊎◌, inl, inr, Bool, true, false, not, ◌&&◌, ◌||◌, false≢true, Option, none, some,
  List, [], ◌∷◌, ◌++◌, map, arith, str_eq, eq_iff, ltb, leb, ◌==◌, if◌then◌else◌, ltb→lt, leb→le,
  ==_iff, Bool-cases, Option-cases, is_some, length, length-append, All, All-append, All-map,
  list_cases, join, join-append, join-last, join-nil, ◌⊕◌, is_empty, strip, strip-empty, by_test,
  by_option,
}

-- config/credentials.py. `chance` is RANDOM.
pub data CredentialStrategy : Type 0 where
  sequential round_robin chance least_used : CredentialStrategy

pub record KeyState : Type 0 where
  pub failures : ℕ
  pub cooldown_until : ℕ

-- The states of the keys, at least one since `__init__` refuses an empty list
pub record ProviderCredentialPool : Type 0 where
  pub strategy : CredentialStrategy
  pub first_state : KeyState
  pub other_states : List KeyState
  pub round_robin_cursor : ℕ

abbrev pub states_of : ProviderCredentialPool → List KeyState
states_of p = p.first_state ∷ p.other_states

-- The indexes from `i` on of the states that are out of their cooldown
unfoldable pub healthy_from : ℕ → ℕ → List KeyState → List ℕ
healthy_from now i [] = []
healthy_from now i (s ∷ states) =
    let rest = healthy_from now (suc i) states in
    if leb s.cooldown_until now then i ∷ rest else rest

abbrev pub healthy : ℕ → ProviderCredentialPool → List ℕ
healthy now p = healthy_from now 0 (states_of p)

unfoldable pub listed : ℕ → List ℕ → Bool
listed i [] = false
listed i (j ∷ js) = (i == j) || listed i js

-- min(range(...), key=...): the first state with the least cooldown, against the best one so far
unfoldable pub coolest : ℕ → ℕ → ℕ → List KeyState → ℕ
coolest best least i [] = best
coolest best least i (s ∷ states) =
    let keep = coolest best least (suc i) states in
    let change = coolest i s.cooldown_until (suc i) states in
    if ltb s.cooldown_until least then change else keep

-- The loop of `_select_round_robin`, with the number of offsets that are left
unfoldable pub search_circle : ℕ → ℕ → ℕ → ℕ → List ℕ → Option ℕ
search_circle zero offset start n free = none
search_circle (suc left) offset start n free =
    let rest = search_circle left (suc offset) start n free in
    let index = (start + offset) % n in if listed index free then some index else rest

-- `first` is healthy[0].
unfoldable pub select_round_robin : ℕ → List ℕ → ProviderCredentialPool → ℕ × ProviderCredentialPool
select_round_robin first free p =
    let n = length (states_of p) in
    elim (search_circle n 0 (p.round_robin_cursor % n) n free) [
      | some index ↦ (index, record p { round_robin_cursor = (index + 1) % n })
      | none ↦ (first, p)
    ]

unfoldable pub entry : ℕ → ℕ → List ℕ → ℕ
entry first zero js = first
entry first (suc k) [] = first
entry first (suc k) (j ∷ js) = entry j k js

-- The choice among healthy[0] and the other healthy keys; `draw` is what `choice` draws.
unfoldable pub select_healthy :
    CredentialStrategy → ℕ → ℕ → List ℕ → ProviderCredentialPool → ℕ × ProviderCredentialPool
select_healthy sequential draw first rest p = (first, p)
select_healthy round_robin draw first rest p = select_round_robin first (first ∷ rest) p
select_healthy chance draw first rest p = (entry first (draw % suc (length rest)) rest, p)
select_healthy least_used draw first rest p = (entry first (draw % suc (length rest)) rest, p)

-- `select` when the healthy keys are known; `draw` is what `choice` draws.
unfoldable pub select_among : List ℕ → ℕ → ProviderCredentialPool → ℕ × ProviderCredentialPool
select_among [] draw p = (coolest 0 p.first_state.cooldown_until 1 p.other_states, p)
select_among (first ∷ rest) draw p = select_healthy p.strategy draw first rest p

abbrev pub select : ℕ → ℕ → ProviderCredentialPool → ℕ × ProviderCredentialPool
select now draw p = select_among (healthy now p) draw p

unfoldable pub update_state : ℕ → (KeyState → KeyState) → List KeyState → List KeyState
update_state i f [] = []
update_state zero f (s ∷ states) = f s ∷ states
update_state (suc i) f (s ∷ states) = s ∷ update_state i f states

abbrev pub on_state : ℕ → (KeyState → KeyState) → ProviderCredentialPool → ProviderCredentialPool
on_state zero f p = record p { first_state = f p.first_state }
on_state (suc i) f p = record p { other_states = update_state i f p.other_states }

unfoldable pub record_success : ℕ → ProviderCredentialPool → ProviderCredentialPool
record_success index p = on_state index (λ s. record { failures = 0; cooldown_until = 0 }) p

-- `cooldown` is the answer of `_cooldown_seconds` for the failures so far and this one.
unfoldable pub record_failure : ℕ → (ℕ → ℕ) → ℕ → ProviderCredentialPool → ProviderCredentialPool
record_failure index cooldown now p =
    on_state index
      (λ s. record {
        failures = s.failures + 1;
        cooldown_until = max s.cooldown_until (now + cooldown (s.failures + 1));
      })
      p
