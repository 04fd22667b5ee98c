-- ===== src/Application/Routing.antt =====
-- application/routing.py and config/model_refs.py: from a client's model name to a provider's model.
pub mod Advertised
pub mod Counting
pub mod Listed
pub mod Refs
pub mod Total
pub mod Tests
use free_claude_code_my_pr_i.Core.GatewayModelIds.{
  decode_gateway_model_id, partition, DecodedGatewayModelId,
}
use free_claude_code_my_pr_i.Application.Reasoning.{
  no_model_name, unknown_provider, ReasoningPolicy, resolve_reasoning_policy, lower,
  MessagesRequest, ReasoningPreference, codes, RoutingError,
}
use free_claude_code_my_pr_i.Prelude.{
  ℕ, zero, suc, ◌+◌, ◌-◌, ◌*◌, ◌/◌, ◌%◌, ◌^◌, ◌≤◌, ◌<◌, min, max, String, ◌≡◌, refl, sym, ap, subst,
  ◌∙◌, ◌≢◌, ◌↔◌, ◌⊎◌, inl, inr, Bool, true, false, not, ◌&&◌, ◌||◌, false≢true, Option, none, some,
  List, [], ◌∷◌, ◌++◌, map, arith, str_eq, eq_iff, ltb, leb, ◌==◌, if◌then◌else◌, ltb→lt, leb→le,
  ==_iff, Bool-cases, Option-cases, is_some, length, length-append, All, All-append, All-map,
  list_cases, join, join-append, join-last, join-nil, ◌⊕◌, is_empty, strip, strip-empty, by_test,
  by_option,
}
use free_claude_code_my_pr_i.Core.Thinking.{starts_with}

-- The keys of PROVIDER_CATALOG, in their order
unfoldable pub supported_provider_ids : List String
supported_provider_ids =
    "nvidia_nim" ∷ "open_router" ∷ "gemini" ∷ "vertex" ∷ "deepseek" ∷ "mistral"
    ∷ "mistral_codestral" ∷ "opencode" ∷ "opencode_go" ∷ "vercel" ∷ "bedrock" ∷ "huggingface"
    ∷ "cohere" ∷ "github_models" ∷ "wafer" ∷ "kimi" ∷ "kimi_code" ∷ "minimax" ∷ "cerebras" ∷ "groq"
    ∷ "sambanova" ∷ "fireworks" ∷ "cloudflare" ∷ "zai" ∷ "ollama_cloud" ∷ "siliconflow" ∷ "lmstudio"
    ∷ "llamacpp" ∷ "ollama" ∷ []

unfoldable pub listed : String → List String → Bool
listed s [] = false
listed s (t ∷ ts) = str_eq s t || listed s ts

abbrev pub is_supported : String → Bool
is_supported provider_id = listed provider_id supported_provider_ids

-- The settings that routing reads.
pub record Settings : Type 0 where
  pub model : String
  pub model_fable : Option String
  pub model_opus : Option String
  pub model_sonnet : Option String
  pub model_haiku : Option String
  pub reasoning_policy : ReasoningPreference
  pub reasoning_fable : ReasoningPreference
  pub reasoning_opus : ReasoningPreference
  pub reasoning_sonnet : ReasoningPreference
  pub reasoning_haiku : ReasoningPreference

pub data Route : Type 0 where
  fable opus haiku sonnet : Route

-- The second entry of a row of _ROUTE_SETTINGS
abbrev pub model_of : Route → Settings → Option String
model_of fable s = s.model_fable
model_of opus s = s.model_opus
model_of haiku s = s.model_haiku
model_of sonnet s = s.model_sonnet

-- The third entry
abbrev pub reasoning_of : Route → Settings → ReasoningPreference
reasoning_of fable s = s.reasoning_fable
reasoning_of opus s = s.reasoning_opus
reasoning_of haiku s = s.reasoning_haiku
reasoning_of sonnet s = s.reasoning_sonnet

-- `word in text`
unfoldable pub contains : List ℕ → List ℕ → Bool
unfolding starts_with
contains word [] = starts_with word []
contains word (c ∷ text) = starts_with word (c ∷ text) || contains word text

unfoldable pub matched_route : String → Option Route
unfolding codes
matched_route model_name =
    let normalized = lower model_name in
    if contains (codes "fable") normalized
    then some fable
    else if contains (codes "opus") normalized
    then some opus
    else if contains (codes "haiku") normalized
    then some haiku
    else if contains (codes "sonnet") normalized
    then some sonnet
    else none

pub record ResolvedModel : Type 0 where
  pub original_model : String
  pub provider_id : String
  pub provider_model : String
  pub provider_model_ref : String
  pub reasoning_preference : ReasoningPreference

unfoldable pub parse_provider_type : String → String
parse_provider_type model_ref = (partition model_ref).before

-- `none` is the IndexError of a reference without a slash.
unfoldable pub parse_model_name : String → Option String
parse_model_name model_ref =
    let cut = partition model_ref in if cut.found then some cut.after else none

-- The provider, its model, and whether reasoning is forced off, unless the first two are None.
unfoldable pub direct_provider_model : String → Option DecodedGatewayModelId
direct_provider_model model_name = elim (decode_gateway_model_id model_name) [
  | some decoded ↦ if is_supported decoded.provider_id then some decoded else none
  | none ↦
      let cut = partition model_name in
      if not cut.found
      then none
      else if not (is_supported cut.before)
      then none
      else if is_empty cut.after
      then none
      else some (record {
        provider_id = cut.before;
        provider_model = cut.after;
        force_reasoning_off = false;
      })
]

unfoldable pub resolve_model_ref : Settings → String → String
resolve_model_ref settings name = elim (matched_route name) [
  | none ↦ settings.model
  | some route ↦ elim (model_of route settings) [ none ↦ settings.model | some model ↦ model ]
]

abbrev pub or_else : ReasoningPreference → ReasoningPreference → ReasoningPreference
or_else p ReasoningPreference.inherit = p
or_else p ReasoningPreference.off = ReasoningPreference.off
or_else p ReasoningPreference.client = ReasoningPreference.client
or_else p ReasoningPreference.low = ReasoningPreference.low
or_else p ReasoningPreference.medium = ReasoningPreference.medium
or_else p ReasoningPreference.high = ReasoningPreference.high
or_else p ReasoningPreference.xhigh = ReasoningPreference.xhigh
or_else p ReasoningPreference.max = ReasoningPreference.max

unfoldable pub resolve_reasoning_preference : Settings → String → ReasoningPreference
resolve_reasoning_preference settings name = elim (matched_route name) [
  | none ↦ settings.reasoning_policy
  | some route ↦ or_else settings.reasoning_policy (reasoning_of route settings)
]

-- The second half of `resolve`, for a name that is no direct provider model
unfoldable pub resolve_configured : Settings → String → RoutingError ⊎ ResolvedModel
resolve_configured settings name =
    let ref = resolve_model_ref settings name in
    let provider = parse_provider_type ref in
    if not (is_supported provider)
    then inl (unknown_provider provider)
    else elim (parse_model_name ref) [
      | none ↦ inl no_model_name
      | some model ↦ inr (record {
        original_model = name;
        provider_id = provider;
        provider_model = model;
        provider_model_ref = ref;
        reasoning_preference = resolve_reasoning_preference settings name;
      })
    ]

unfoldable pub resolve : Settings → String → RoutingError ⊎ ResolvedModel
resolve settings name = elim (direct_provider_model name) [
  | none ↦ resolve_configured settings name
  | some direct ↦ inr (record {
    original_model = name;
    provider_id = direct.provider_id;
    provider_model = direct.provider_model;
    provider_model_ref = name;
    reasoning_preference =
        if direct.force_reasoning_off then ReasoningPreference.off else settings.reasoning_policy;
  })
]

pub record RoutedMessagesRequest : Type 0 where
  pub request : MessagesRequest
  pub resolved : ResolvedModel
  pub reasoning : ReasoningPolicy

unfoldable pub resolve_messages_request :
    Settings → MessagesRequest → RoutingError ⊎ RoutedMessagesRequest
resolve_messages_request settings request = elim (resolve settings request.model) [
  | inl error ↦ inl error
  | inr resolved ↦
      let routed = record request { model = resolved.provider_model } in
      elim (resolve_reasoning_policy routed resolved.reasoning_preference) [
        | inl error ↦ inl error
        | inr policy ↦ inr (record { request = routed; resolved = resolved; reasoning = policy })
      ]
]

-- config/settings.py: `validate_model_format`, which accepts an unset model
unfoldable pub valid_model : Option String → Bool
valid_model none = true
valid_model (some v) = let cut = partition v in cut.found && is_supported cut.before

-- config/settings.py: `validate_root_reasoning_policy`
abbrev pub is_inherit : ReasoningPreference → Bool
is_inherit ReasoningPreference.inherit = true
is_inherit ReasoningPreference.off = false
is_inherit ReasoningPreference.client = false
is_inherit ReasoningPreference.low = false
is_inherit ReasoningPreference.medium = false
is_inherit ReasoningPreference.high = false
is_inherit ReasoningPreference.xhigh = false
is_inherit ReasoningPreference.max = false

-- The validators that the settings pass when they are loaded.
unfoldable pub valid_settings : Settings → Bool
valid_settings s =
    valid_model (some s.model)
    && valid_model s.model_fable
    && valid_model s.model_opus
    && valid_model s.model_sonnet
    && valid_model s.model_haiku
    && not (is_inherit s.reasoning_policy)
