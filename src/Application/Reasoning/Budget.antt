-- ===== src/Application/Reasoning/Budget.antt =====
-- application/reasoning.py and core/reasoning.py: the numeric budget of a resolved policy.
use free_claude_code_my_pr_i.Application.Reasoning.{
  is_on, is_off, thinking_control, positive_budget, ReasoningPreference, output_effort,
  MessagesRequest, client_reasoning_policy, resolve_reasoning_policy, requests_reasoning,
  effort_budget, ReasoningControl, ReasoningEffort, RoutingError, ReasoningPolicy,
  numeric_budget_tokens, new_policy,
}
use mathlib.Core.Option.{some-injective}
use free_claude_code_my_pr_i.Prelude.{
  ℕ, ◌<◌, ◌≡◌, refl, ap, subst, ◌∙◌, ◌⊎◌, inr, true, ◌||◌, Option, none, some, arith, ◌==◌, is_some,
  by_test,
}

-- A policy is coherent when a numeric budget is positive and belongs to requested reasoning.
abbrev Coherent : RoutingError ⊎ ReasoningPolicy → Type 0
Coherent o =
    (q : ReasoningPolicy) (n : ℕ)
    → o ≡ inr q
    → numeric_budget_tokens q ≡ some n
    → (0 < n) × (requests_reasoning q ≡ true)

effort_positive : (e : ReasoningEffort) → 0 < effort_budget e
effort_positive ReasoningEffort.minimal = omega arith
effort_positive ReasoningEffort.low = omega arith
effort_positive ReasoningEffort.medium = omega arith
effort_positive ReasoningEffort.high = omega arith
effort_positive ReasoningEffort.xhigh = omega arith
effort_positive ReasoningEffort.max = omega arith

-- The positive budgets, and none
abbrev Positive : Option ℕ → Type 0
Positive none = Unit
Positive (some k) = 0 < k

abbrev policy : ReasoningControl → Option ReasoningEffort → Option ℕ → ReasoningPolicy
policy c e b = record { control = c; effort = e; budget_tokens = b }

budget_of :
    (c : ReasoningControl) (e : Option ReasoningEffort) (b : Option ℕ) (n : ℕ)
    → Positive b
    → numeric_budget_tokens (policy c e b) ≡ some n
    → (0 < n) × (requests_reasoning (policy c e b) ≡ true)
unfolding numeric_budget_tokens requests_reasoning
budget_of ReasoningControl.off e b n h has = absurd (cc has)
budget_of ReasoningControl.on e (some k) n h has =
    (subst (λ m. 0 < m) (some-injective k n has) h, refl)
budget_of ReasoningControl.on (some e) none n h has =
    (subst (λ m. 0 < m) (some-injective (effort_budget e) n has) (effort_positive e), refl)
budget_of ReasoningControl.on none none n h has = absurd (cc has)
budget_of ReasoningControl.default (some e) (some k) n h has =
    (subst (λ m. 0 < m) (some-injective k n has) h, refl)
budget_of ReasoningControl.default none (some k) n h has =
    (subst (λ m. 0 < m) (some-injective k n has) h, refl)
budget_of ReasoningControl.default (some e) none n h has =
    (subst (λ m. 0 < m) (some-injective (effort_budget e) n has) (effort_positive e), refl)
budget_of ReasoningControl.default none none n h has = absurd (cc has)

accepted-Coherent :
    (c : ReasoningControl) (e : Option ReasoningEffort) (b : Option ℕ)
    → Positive b
    → Coherent (inr (policy c e b))
accepted-Coherent c e b h q n made has =
    let same : policy c e b ≡ q = cc made in
    subst (λ p. (0 < n) × (requests_reasoning p ≡ true)) same
      (budget_of c e b n h (ap numeric_budget_tokens same ∙ has))

new_policy-Coherent :
    (c : ReasoningControl) (e : Option ReasoningEffort) (b : Option ℕ) → Coherent (new_policy c e b)
unfolding new_policy
new_policy-Coherent c e none = accepted-Coherent c e none tt
new_policy-Coherent ReasoningControl.on e (some k) =
    by_test Coherent (k == 0) _ _ (λ _ q n made has. absurd (cc made))
      (λ above. accepted-Coherent ReasoningControl.on e (some k) (ground arith))
new_policy-Coherent ReasoningControl.off e (some k) = λ q n made has. absurd (cc made)
new_policy-Coherent ReasoningControl.default e (some k) = λ q n made has. absurd (cc made)

client-Coherent : (request : MessagesRequest) → Coherent (client_reasoning_policy request)
unfolding client_reasoning_policy
client-Coherent request =
    let effort = (output_effort request.effort).0 in
    let budget = positive_budget request.thinking in
    let control = thinking_control request.thinking budget in
    by_test Coherent (output_effort request.effort).1 _ _
      (λ _. new_policy-Coherent ReasoningControl.off none none)
      (λ _.
        by_test Coherent (is_off control) _ _
          (λ _. new_policy-Coherent ReasoningControl.off effort none)
          (λ _.
            by_test Coherent (is_on control || is_some budget) _ _
              (λ _. new_policy-Coherent ReasoningControl.on effort budget)
              (λ _. new_policy-Coherent ReasoningControl.default effort none)))

-- When a resolved policy has a numeric budget, the budget is above 0 and the policy asks the provider
-- to reason, so a policy with reasoning off has none.
pub numeric_budget_positive :
    (request : MessagesRequest) (preference : ReasoningPreference) (q : ReasoningPolicy) (n : ℕ)
    → resolve_reasoning_policy request preference ≡ inr q
    → numeric_budget_tokens q ≡ some n
    → (0 < n) × (requests_reasoning q ≡ true)
unfolding resolve_reasoning_policy
numeric_budget_positive request ReasoningPreference.inherit = λ q n made has. absurd (cc made)
numeric_budget_positive request ReasoningPreference.off =
    new_policy-Coherent ReasoningControl.off none none
numeric_budget_positive request ReasoningPreference.client = client-Coherent request
numeric_budget_positive request ReasoningPreference.low =
    new_policy-Coherent ReasoningControl.on (some ReasoningEffort.low) none
numeric_budget_positive request ReasoningPreference.medium =
    new_policy-Coherent ReasoningControl.on (some ReasoningEffort.medium) none
numeric_budget_positive request ReasoningPreference.high =
    new_policy-Coherent ReasoningControl.on (some ReasoningEffort.high) none
numeric_budget_positive request ReasoningPreference.xhigh =
    new_policy-Coherent ReasoningControl.on (some ReasoningEffort.xhigh) none
numeric_budget_positive request ReasoningPreference.max =
    new_policy-Coherent ReasoningControl.on (some ReasoningEffort.max) none
