-- ===== src/Providers/KeyRotation/Cooling.antt =====
-- providers/openai_chat/key_rotation.py: keys in their cooldown and out of it, while keys fail.
use free_claude_code_my_pr_i.Providers.KeyRotation.Choice.{cooldown_at}
use free_claude_code_my_pr_i.Providers.KeyRotation.{listed, update_state, healthy_from, KeyState}
use mathlib.Core.Option.{some-injective}
use free_claude_code_my_pr_i.Prelude.{
  ℕ, zero, suc, ◌+◌, ◌≤◌, ◌<◌, ◌≡◌, refl, ◌⊎◌, inl, inr, true, false, false≢true, some, List, [],
  ◌∷◌, arith, leb, ◌==◌, if◌then◌else◌, Bool-cases, length, All,
}

-- ---------------------------------------------------------------- keys that can be chosen

-- Key `i` was out of its cooldown at `start`.
abbrev pub IsCold : ℕ → ℕ → List KeyState → Type 0
IsCold start i states = (c : ℕ) × (cooldown_at i states ≡ some c) × (c ≤ start)

-- Each key was out of its cooldown at `start`, or stays in it until `horizon`.
abbrev pub IsSplit : ℕ → ℕ → List KeyState → Type 0
IsSplit start horizon states =
    All (λ s. (s.cooldown_until ≤ start) ⊎ (horizon ≤ s.cooldown_until)) states

pub cold_count : ℕ → List KeyState → ℕ
cold_count start [] = 0
cold_count start (s ∷ states) =
    let rest = cold_count start states in if leb s.cooldown_until start then suc rest else rest

pub cold_count-le : (start : ℕ) (states : List KeyState) → cold_count start states ≤ length states
unfolding cold_count
cold_count-le start [] = omega arith
cold_count-le start (s ∷ states) = let rest = cold_count-le start states in ground arith

pub IsCold-count :
    (start i : ℕ) (states : List KeyState) → IsCold start i states → 0 < cold_count start states
unfolding cold_count cooldown_at
IsCold-count start i [] h = absurd (cc h.1)
IsCold-count start zero (s ∷ states) h =
    let same : s.cooldown_until ≡ h.0 = some-injective s.cooldown_until h.0 h.1 in ground arith
IsCold-count start (suc i) (s ∷ states) h = let rest = IsCold-count start i states h in ground arith

-- A key that can be chosen at `now` is one of the cold ones.
pub listed-IsCold :
    (start horizon now j i : ℕ) (states : List KeyState)
    → start ≤ now
    → now < horizon
    → IsSplit start horizon states
    → listed i (healthy_from now j states) ≡ true
    → (k : ℕ) × (i ≡ j + k) × IsCold start k states
unfolding healthy_from listed cooldown_at
listed-IsCold start horizon now j i [] a b split h = absurd (false≢true h)
listed-IsCold start horizon now j i (s ∷ states) a b split h =
    elim (Bool-cases (leb s.cooldown_until now)) [
      | inl out ↦ elim (Bool-cases (i == j)) [
        | inl same ↦ (0, ground arith, (s.cooldown_until, refl, ground arith))
        | inr other ↦
            let rest =
              listed-IsCold start horizon now (suc j) i states a b split.1 (ground arith) in
            (suc rest.0, ground arith, rest.2)
      ]
      | inr still ↦
          let rest = listed-IsCold start horizon now (suc j) i states a b split.1 (ground arith) in
          (suc rest.0, ground arith, rest.2)
    ]

pub IsCold-listed :
    (start now j k : ℕ) (states : List KeyState)
    → start ≤ now
    → IsCold start k states
    → listed (j + k) (healthy_from now j states) ≡ true
unfolding healthy_from listed cooldown_at
IsCold-listed start now j k [] a h = absurd (cc h.1)
IsCold-listed start now j zero (s ∷ states) a h =
    let same : s.cooldown_until ≡ h.0 = some-injective s.cooldown_until h.0 h.1 in ground arith
IsCold-listed start now j (suc k) (s ∷ states) a h =
    let rest = IsCold-listed start now (suc j) k states a h in ground arith

-- ---------------------------------------------------------------- a key that failed

module _ (start : ℕ) (f : KeyState → KeyState)
    (hot : (s : KeyState) → start < (f s).cooldown_until) where
  pub update-count :
      (i : ℕ) (states : List KeyState)
      → IsCold start i states
      → cold_count start states ≡ suc (cold_count start (update_state i f states))
  unfolding cold_count cooldown_at update_state
  update-count i [] h = absurd (cc h.1)
  update-count zero (s ∷ states) h =
      let same : s.cooldown_until ≡ h.0 = some-injective s.cooldown_until h.0 h.1 in
      let above = hot s in ground arith
  update-count (suc i) (s ∷ states) h = let rest = update-count i states h in ground arith

  pub update-IsCold :
      (i k : ℕ) (states : List KeyState)
      → (k == i) ≡ false
      → IsCold start k states
      → IsCold start k (update_state i f states)
  unfolding cooldown_at update_state
  update-IsCold i k [] d h = h
  update-IsCold zero zero (s ∷ states) d h = absurd (ground arith)
  update-IsCold zero (suc k) (s ∷ states) d h = h
  update-IsCold (suc i) zero (s ∷ states) d h = h
  update-IsCold (suc i) (suc k) (s ∷ states) d h = update-IsCold i k states (ground arith) h

  pub updated-IsCold :
      (i k : ℕ) (states : List KeyState)
      → IsCold start k (update_state i f states)
      → ((k == i) ≡ false) × IsCold start k states
  unfolding cooldown_at update_state
  updated-IsCold i k [] h = absurd (cc h.1)
  updated-IsCold zero zero (s ∷ states) h =
      let same : (f s).cooldown_until ≡ h.0 = some-injective (f s).cooldown_until h.0 h.1 in
      let above = hot s in absurd (ground arith)
  updated-IsCold zero (suc k) (s ∷ states) h = (ground arith, h)
  updated-IsCold (suc i) zero (s ∷ states) h = (ground arith, h)
  updated-IsCold (suc i) (suc k) (s ∷ states) h =
      let rest = updated-IsCold i k states h in (ground arith, rest.1)

pub update-IsSplit :
    (start horizon : ℕ) (f : KeyState → KeyState)
    → ((s : KeyState) → horizon ≤ (f s).cooldown_until)
    → (i : ℕ) (states : List KeyState) → IsSplit start horizon states
    → IsSplit start horizon (update_state i f states)
unfolding update_state
update-IsSplit start horizon f hot i [] h = h
update-IsSplit start horizon f hot zero (s ∷ states) h = (inr (hot s), h.1)
update-IsSplit start horizon f hot (suc i) (s ∷ states) h =
    (h.0, update-IsSplit start horizon f hot i states h.1)
