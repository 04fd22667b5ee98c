-- ===== src/Application/Routing/Total.antt =====
-- application/routing.py: every name is resolved.
use free_claude_code_my_pr_i.Core.GatewayModelIds.{
  partition, decode_gateway_model_id, DecodedGatewayModelId,
}
use free_claude_code_my_pr_i.Application.Reasoning.{
  positive, Tokens, negative, is_on, tokens, is_off, ReasoningControl, output_effort,
  ReasoningEffort, ThinkingConfig, thinking_control, MessagesRequest, new_policy, ReasoningPolicy,
  client_reasoning_policy, resolve_reasoning_policy, RoutingError, positive_budget,
  ReasoningPreference,
}
use free_claude_code_my_pr_i.Application.Routing.{
  RoutedMessagesRequest, resolve_messages_request, sonnet, haiku, opus, fable, Route, reasoning_of,
  model_of, or_else, matched_route, valid_model, parse_model_name, is_supported, valid_settings,
  parse_provider_type, is_inherit, ResolvedModel, resolve, Settings, resolve_reasoning_preference,
  resolve_model_ref, resolve_configured, direct_provider_model,
}
use mathlib.Core.Option.{some-injective}
use free_claude_code_my_pr_i.Prelude.{
  String, ◌≡◌, refl, sym, subst, ◌⊎◌, inr, true, false, not, ◌&&◌, ◌||◌, false≢true, Option, none,
  some, arith, ltb, ◌==◌, is_some, is_empty, by_test, by_option,
}

direct-supported :
    (name : String) (d : DecodedGatewayModelId)
    → direct_provider_model name ≡ some d
    → is_supported d.provider_id ≡ true
unfolding direct_provider_model
direct-supported name d =
    by_option (λ o. o ≡ some d → is_supported d.provider_id ≡ true) (decode_gateway_model_id name) _
      _
      (λ _.
        by_test (λ o. o ≡ some d → is_supported d.provider_id ≡ true) (not (partition name).found) _
          _ (λ _ e. absurd (cc e))
          (λ _.
            by_test (λ o. o ≡ some d → is_supported d.provider_id ≡ true)
              (not (is_supported (partition name).before)) _ _ (λ _ e. absurd (cc e))
              (λ known.
                by_test (λ o. o ≡ some d → is_supported d.provider_id ≡ true)
                  (is_empty (partition name).after) _ _ (λ _ e. absurd (cc e))
                  (λ _ e.
                    subst (λ k. is_supported k.provider_id ≡ true) (some-injective _ d e)
                      (ground arith)))))
      (λ k decoded.
        by_test (λ o. o ≡ some d → is_supported d.provider_id ≡ true) (is_supported k.provider_id) _
          _
          (λ known e. subst (λ k'. is_supported k'.provider_id ≡ true) (some-injective k d e) known)
          (λ _ e. absurd (cc e)))

route-valid :
    (s : Settings) (route : Route) → valid_settings s ≡ true → valid_model (model_of route s) ≡ true
unfolding valid_settings
route-valid s fable h = ground arith
route-valid s opus h = ground arith
route-valid s haiku h = ground arith
route-valid s sonnet h = ground arith

pub ref-valid :
    (s : Settings) (name : String)
    → valid_settings s ≡ true
    → valid_model (some (resolve_model_ref s name)) ≡ true
unfolding resolve_model_ref valid_settings
ref-valid s name h =
    by_option (λ m. valid_model (some m) ≡ true) (matched_route name) _ _ (λ _. ground arith)
      (λ route _.
        by_option (λ m. valid_model (some m) ≡ true) (model_of route s) _ _ (λ _. ground arith)
          (λ m e. subst (λ o. valid_model o ≡ true) e (route-valid s route h)))

or_else-given :
    (p q : ReasoningPreference) → is_inherit p ≡ false → is_inherit (or_else p q) ≡ false
or_else-given p ReasoningPreference.inherit h = h
or_else-given p ReasoningPreference.off h = refl
or_else-given p ReasoningPreference.client h = refl
or_else-given p ReasoningPreference.low h = refl
or_else-given p ReasoningPreference.medium h = refl
or_else-given p ReasoningPreference.high h = refl
or_else-given p ReasoningPreference.xhigh h = refl
or_else-given p ReasoningPreference.max h = refl

preference-given :
    (s : Settings) (name : String)
    → is_inherit s.reasoning_policy ≡ false
    → is_inherit (resolve_reasoning_preference s name) ≡ false
unfolding resolve_reasoning_preference
preference-given s name h =
    by_option (λ p. is_inherit p ≡ false) (matched_route name) _ _ (λ _. h)
      (λ route _. or_else-given s.reasoning_policy (reasoning_of route s) h)

root-given : (s : Settings) → valid_settings s ≡ true → is_inherit s.reasoning_policy ≡ false
unfolding valid_settings
root-given s h = ground arith

-- What a resolved model is like.
abbrev pub Resolves : Settings → String → Type 0
Resolves s name =
    (r : ResolvedModel) × (resolve s name ≡ inr r)
    × (is_supported r.provider_id ≡ true)
    × (is_inherit r.reasoning_preference ≡ false)

configured-Resolves :
    (s : Settings) (name : String)
    → valid_settings s ≡ true
    → (r : ResolvedModel) × (resolve_configured s name ≡ inr r)
      × (is_supported r.provider_id ≡ true)
      × (is_inherit r.reasoning_preference ≡ false)
unfolding resolve_configured parse_provider_type parse_model_name valid_model
configured-Resolves s name h =
    let ref = resolve_model_ref s name in
    let valid : ((partition ref).found && is_supported (partition ref).before) ≡ true =
      ref-valid s name h in
    let found : (partition ref).found ≡ true = ground arith in
    let known : is_supported (partition ref).before ≡ true = ground arith in
    (
      record {
        original_model = name;
        provider_id = (partition ref).before;
        provider_model = (partition ref).after;
        provider_model_ref = ref;
        reasoning_preference = resolve_reasoning_preference s name;
      },
      ground arith,
      known,
      preference-given s name (root-given s h),
    )

pub resolve-Resolves : (s : Settings) (name : String) → valid_settings s ≡ true → Resolves s name
unfolding resolve
resolve-Resolves s name h =
    by_option
      (λ o.
        (r : ResolvedModel) × (o ≡ inr r)
        × (is_supported r.provider_id ≡ true)
        × (is_inherit r.reasoning_preference ≡ false))
      (direct_provider_model name) _ _ (λ _. configured-Resolves s name h)
      (λ d e. (
        _,
        refl,
        direct-supported name d e,
        by_test (λ p. is_inherit p ≡ false) d.force_reasoning_off _ _ (λ _. refl)
            (λ _. root-given s h),
      ))

-- A policy that `resolve_reasoning_policy` returns.
abbrev pub Returns : RoutingError ⊎ ReasoningPolicy → Type 0
Returns o = (q : ReasoningPolicy) × (o ≡ inr q)

positive-Returns :
    (b : Option Tokens) (e : Option ReasoningEffort)
    → Returns (new_policy ReasoningControl.on e (positive b))
unfolding new_policy
positive-Returns none e = (_, refl)
positive-Returns (some (tokens n)) e =
    by_test (λ b. Returns (new_policy ReasoningControl.on e b)) (ltb 0 n) _ _
      (λ pos. by_test Returns (n == 0) _ _ (λ zero. absurd (ground arith)) (λ _. (_, refl)))
      (λ _. (_, refl))
positive-Returns (some (negative n)) e = (_, refl)

on_Returns :
    (t : Option ThinkingConfig) (e : Option ReasoningEffort)
    → Returns (new_policy ReasoningControl.on e (positive_budget t))
unfolding positive_budget
on_Returns none e = positive-Returns none e
on_Returns (some t) e = positive-Returns t.budget_tokens e

client-Returns : (request : MessagesRequest) → Returns (client_reasoning_policy request)
unfolding client_reasoning_policy new_policy
client-Returns request =
    let control = thinking_control request.thinking (positive_budget request.thinking) in
    by_test Returns (output_effort request.effort).1 _ _ (λ _. (_, refl))
      (λ _.
        by_test Returns (is_off control) _ _ (λ _. (_, refl))
          (λ _.
            by_test Returns (is_on control || is_some (positive_budget request.thinking)) _ _
              (λ _. on_Returns request.thinking (output_effort request.effort).0) (λ _. (_, refl))))

pub policy-Returns :
    (request : MessagesRequest) (p : ReasoningPreference)
    → is_inherit p ≡ false
    → Returns (resolve_reasoning_policy request p)
unfolding resolve_reasoning_policy new_policy
policy-Returns request ReasoningPreference.inherit h = absurd (false≢true (sym h))
policy-Returns request ReasoningPreference.off h = (_, refl)
policy-Returns request ReasoningPreference.client h = client-Returns request
policy-Returns request ReasoningPreference.low h = (_, refl)
policy-Returns request ReasoningPreference.medium h = (_, refl)
policy-Returns request ReasoningPreference.high h = (_, refl)
policy-Returns request ReasoningPreference.xhigh h = (_, refl)
policy-Returns request ReasoningPreference.max h = (_, refl)

pub routed_of :
    (settings : Settings) (request : MessagesRequest) (r : ResolvedModel) (q : ReasoningPolicy)
    → resolve settings request.model ≡ inr r
    → resolve_reasoning_policy (record request { model = r.provider_model }) r.reasoning_preference
      ≡ inr q
    → resolve_messages_request settings request
      ≡ inr (record {
        request = record request { model = r.provider_model };
        resolved = r;
        reasoning = q;
      })
unfolding resolve_messages_request
routed_of settings request r q e f = ground arith

-- With settings that pass their validators, every request is routed: no model name and no thinking
-- configuration is refused, the provider is one of the catalogue, and the provider's model replaces
-- the client's.
pub every_request_is_routed :
    (settings : Settings) (request : MessagesRequest)
    → valid_settings settings ≡ true
    → (routed : RoutedMessagesRequest) × (resolve_messages_request settings request ≡ inr routed)
      × (is_supported routed.resolved.provider_id ≡ true)
      × (routed.request.model ≡ routed.resolved.provider_model)
unfolding resolve_messages_request
every_request_is_routed settings request h =
    let resolved = resolve-Resolves settings request.model h in
    let routed = record request { model = resolved.0.provider_model } in
    let policy = policy-Returns routed resolved.0.reasoning_preference resolved.3 in
    (
      record { request = routed; resolved = resolved.0; reasoning = policy.0 },
      routed_of settings request resolved.0 policy.0 resolved.1 policy.1,
      resolved.2,
      refl,
    )
