-- ===== src/Providers/KeyRotation/Choice.antt =====
-- providers/openai_chat/key_rotation.py: which key is chosen.
use free_claude_code_my_pr_i.Providers.KeyRotation.{
  healthy_from, least_used, chance, round_robin, sequential, select_among, CredentialStrategy,
  select_round_robin, select_healthy, select, states_of, healthy, entry, KeyState, coolest,
  search_circle, ProviderCredentialPool, listed,
}
use mathlib.Core.Option.{some-injective}
use free_claude_code_my_pr_i.Prelude.{
  ℕ, zero, suc, ◌+◌, ◌%◌, ◌≤◌, ◌<◌, ◌≡◌, refl, sym, subst, ◌∙◌, ◌⊎◌, inl, inr, Bool, true, false,
  ◌&&◌, Option, none, some, List, [], ◌∷◌, arith, ltb, leb, ◌==◌, Bool-cases, Option-cases, length,
  by_test, by_option,
}

unfoldable pub cooldown_at : ℕ → List KeyState → Option ℕ
cooldown_at i [] = none
cooldown_at zero (s ∷ states) = some s.cooldown_until
cooldown_at (suc i) (s ∷ states) = cooldown_at i states

-- No state is out of its cooldown before `c`.
pub none_before : ℕ → List KeyState → Bool
none_before c [] = true
none_before c (s ∷ states) = leb c s.cooldown_until && none_before c states

-- Key `i` is in its cooldown no longer than any other.
unfoldable pub first_to_leave : ℕ → List KeyState → Bool
first_to_leave i states = elim (cooldown_at i states) [
  | none ↦ false
  | some c ↦ none_before c states
]

-- A healthy key if there is one, and else a key whose cooldown ends first
unfoldable pub best_among : List ℕ → ProviderCredentialPool → ℕ → Bool
best_among [] p i = first_to_leave i (states_of p)
best_among (first ∷ rest) p i = listed i (first ∷ rest)

none_before-le :
    (c d : ℕ) (states : List KeyState)
    → c ≤ d
    → none_before d states ≡ true
    → none_before c states ≡ true
unfolding none_before
none_before-le c d [] h e = refl
none_before-le c d (s ∷ states) h e =
    let rest = none_before-le c d states h (ground arith) in ground arith

-- The best state so far stays the best, or a later one is better.
Finds : ℕ → ℕ → ℕ → List KeyState → Type 0
Finds best least i states =
    ((coolest best least i states ≡ best) × (none_before least states ≡ true))
    ⊎ ((k : ℕ) × (c : ℕ) × (coolest best least i states ≡ i + k)
        × (cooldown_at k states ≡ some c)
        × (c < least)
        × (none_before c states ≡ true))

coolest-Finds : (best least i : ℕ) (states : List KeyState) → Finds best least i states
unfolding coolest Finds none_before cooldown_at
coolest-Finds best least i [] = inl (refl, refl)
coolest-Finds best least i (s ∷ states) = elim (Bool-cases (ltb s.cooldown_until least)) [
  | inl less ↦ elim (coolest-Finds i s.cooldown_until (suc i) states) [
    | inl stays ↦ inr (0, s.cooldown_until, ground arith, refl, ground arith, ground arith)
    | inr found ↦ inr (suc found.0, found.1, ground arith, found.3, ground arith, ground arith)
  ]
  | inr more ↦ elim (coolest-Finds best least (suc i) states) [
    | inl stays ↦ inl (ground arith, ground arith)
    | inr found ↦ inr (suc found.0, found.1, ground arith, found.3, found.4, ground arith)
  ]
]

entry-listed : (first k : ℕ) (js : List ℕ) → listed (entry first k js) (first ∷ js) ≡ true
unfolding listed entry
entry-listed first zero js = ground arith
entry-listed first (suc k) [] = ground arith
entry-listed first (suc k) (j ∷ js) = let rest = entry-listed j k js in ground arith

search-listed :
    (left offset start n : ℕ) (free : List ℕ) (i : ℕ)
    → search_circle left offset start n free ≡ some i
    → listed i free ≡ true
unfolding search_circle
search-listed zero offset start n free i = λ e. absurd (cc e)
search-listed (suc left) offset start n free i =
    by_test (λ o. o ≡ some i → listed i free ≡ true) (listed ((start + offset) % n) free) _ _
      (λ there e. subst (λ j. listed j free ≡ true) (some-injective _ i e) there)
      (λ _ e. search-listed left (suc offset) start n free i e)

pub healthy_choice :
    (strategy : CredentialStrategy) (p : ProviderCredentialPool) (draw first : ℕ) (rest : List ℕ)
    → listed (select_healthy strategy draw first rest p).0 (first ∷ rest) ≡ true
unfolding select_healthy select_round_robin listed
healthy_choice sequential p draw first rest = ground arith
healthy_choice round_robin p draw first rest =
    let n = length (states_of p) in
    by_option (λ (r : ℕ × ProviderCredentialPool). listed r.0 (first ∷ rest) ≡ true)
      (search_circle n 0 (p.round_robin_cursor % n) n (first ∷ rest)) _ _ (λ _. ground arith)
      (λ i e. search-listed n 0 (p.round_robin_cursor % n) n (first ∷ rest) i e)
healthy_choice chance p draw first rest = entry-listed first (draw % suc (length rest)) rest
healthy_choice least_used p draw first rest = entry-listed first (draw % suc (length rest)) rest

leaves_first :
    (i c : ℕ) (states : List KeyState)
    → cooldown_at i states ≡ some c
    → none_before c states ≡ true
    → first_to_leave i states ≡ true
unfolding first_to_leave
leaves_first i c states e h =
    subst (λ o. elim o [ none ↦ false | some d ↦ none_before d states ] ≡ true) (sym e) h

best_choice :
    (l : List ℕ) (draw : ℕ) (p : ProviderCredentialPool)
    → best_among l p (select_among l draw p).0 ≡ true
unfolding best_among select_among cooldown_at none_before Finds
best_choice [] draw p = elim (coolest-Finds 0 p.first_state.cooldown_until 1 p.other_states) [
  | inl stays ↦
      subst (λ i. first_to_leave i (states_of p) ≡ true) (sym stays.0)
        (leaves_first 0 p.first_state.cooldown_until (states_of p) refl (ground arith))
  | inr found ↦
      let next : 1 + found.0 ≡ suc found.0 = omega arith in
      subst (λ i. first_to_leave i (states_of p) ≡ true) (sym (found.2 ∙ next))
        (leaves_first (suc found.0) found.1 (states_of p) found.3 (ground arith))
]
best_choice (first ∷ rest) draw p = healthy_choice p.strategy p draw first rest

healthy_cooldown :
    (now b i : ℕ) (states : List KeyState)
    → listed i (healthy_from now b states) ≡ true
    → (k c : ℕ) × (i ≡ b + k) × (cooldown_at k states ≡ some c) × (c ≤ now)
unfolding healthy_from listed cooldown_at
healthy_cooldown now b i [] h = absurd (cc h)
healthy_cooldown now b i (s ∷ states) h = elim (Bool-cases (leb s.cooldown_until now)) [
  | inr cooling ↦
      let later : listed i (healthy_from now (suc b) states) ≡ true = ground arith in
      let (k, c, at_, e, le) = healthy_cooldown now (suc b) i states later in
      (suc k, c, omega (arith, at_), e, le)
  | inl out ↦ elim (Bool-cases (i == b)) [
    | inl here ↦ (0, s.cooldown_until, ground arith, refl, ground arith)
    | inr other ↦
        let later : listed i (healthy_from now (suc b) states) ≡ true = ground arith in
        let (k, c, at_, e, le) = healthy_cooldown now (suc b) i states later in
        (suc k, c, omega (arith, at_), e, le)
  ]
]

none_before-at :
    (c j d : ℕ) (states : List KeyState)
    → none_before c states ≡ true
    → cooldown_at j states ≡ some d
    → c ≤ d
unfolding none_before cooldown_at
none_before-at c j d [] h e = absurd (cc e)
none_before-at c zero d (s ∷ states) h e =
    let same : s.cooldown_until ≡ d = some-injective s.cooldown_until d e in ground arith
none_before-at c (suc j) d (s ∷ states) h e = none_before-at c j d states (ground arith) e

-- Key `i` is out of its cooldown if any key is, and else it is the first to leave its cooldown.
abbrev pub IsBest : ℕ → ProviderCredentialPool → ℕ → Type 0
IsBest now p i =
    (c : ℕ) × (cooldown_at i (states_of p) ≡ some c)
    × ((j d : ℕ) → cooldown_at j (states_of p) ≡ some d → (d ≤ now → c ≤ now) × (now < c → c ≤ d))

best_among-IsBest :
    (l : List ℕ) (now i : ℕ) (p : ProviderCredentialPool)
    → l ≡ healthy now p
    → best_among l p i ≡ true
    → IsBest now p i
unfolding best_among first_to_leave
best_among-IsBest [] now i p same best = elim (Option-cases (cooldown_at i (states_of p))) [
  | inl missing ↦ absurd (ground arith)
  | inr (c, e) ↦
      let first : none_before c (states_of p) ≡ true = ground arith in
      (
        c,
        e,
        λ j d at_.
            let le = none_before-at c j d (states_of p) first at_ in
            (λ out. omega (arith, le, out), λ _. le),
      )
]
best_among-IsBest (k ∷ ks) now i p same best =
    let (j, c, at_, e, le) =
      healthy_cooldown now 0 i (states_of p) (subst (λ l. listed i l ≡ true) same best) in
    let here : i ≡ j = omega (arith, at_) in
    (
      c,
      subst (λ k. cooldown_at k (states_of p) ≡ some c) (sym here) e,
      λ j d there. (λ _. le, λ cooling. absurd (omega (arith, le, cooling))),
    )

-- The key that is selected is one of the pool, and out of its cooldown when some key is, under every
-- strategy; when none is, no key leaves its cooldown before it.
pub select-IsBest : (now draw : ℕ) (p : ProviderCredentialPool) → IsBest now p (select now draw p).0
select-IsBest now draw p =
    best_among-IsBest (healthy now p) now (select now draw p).0 p refl
      (best_choice (healthy now p) draw p)
