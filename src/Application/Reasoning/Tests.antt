-- ===== src/Application/Reasoning/Tests.antt =====
-- Reasoning policies at concrete inputs.
use free_claude_code_my_pr_i.Application.Reasoning.Budget.{numeric_budget_positive}
use free_claude_code_my_pr_i.Application.Reasoning.{
  output_effort, thinking_control, positive_budget, new_policy, ReasoningPreference,
  client_reasoning_policy, tokens, ReasoningControl, resolve_reasoning_policy, MessagesRequest,
  ReasoningPolicy, requests_reasoning, numeric_budget_tokens,
}
use free_claude_code_my_pr_i.Prelude.{◌<◌, ◌≡◌, refl, inr, true, false, none, some}

abbrev request : MessagesRequest
request = record {
  model = "claude";
  thinking = some (record {
    enabled_set = false;
    enabled = some true;
    type = some "enabled";
    budget_tokens = some (tokens 2048);
  });
  effort = none;
}

abbrev policy : ReasoningPolicy
policy = record { control = ReasoningControl.on; effort = none; budget_tokens = some 2048 }

made : resolve_reasoning_policy request ReasoningPreference.client ≡ inr policy
unfolding resolve_reasoning_policy client_reasoning_policy new_policy positive_budget
    thinking_control output_effort
made = refl

has : numeric_budget_tokens policy ≡ some 2048
unfolding numeric_budget_tokens
has = refl

numeric_budget_positive_example : (0 < 2048) × (requests_reasoning policy ≡ true)
numeric_budget_positive_example =
    numeric_budget_positive request ReasoningPreference.client policy 2048 made has
