-- ===== src/Application/Routing/Tests.antt =====
-- Routing at concrete inputs.
use free_claude_code_my_pr_i.Application.Routing.Listed.{
  configured_chat_model_refs-Lists, mapped_model_is_listed, Lists,
}
use free_claude_code_my_pr_i.Prelude.Dict.{elem}
use free_claude_code_my_pr_i.Application.Routing.Refs.{
  chat_models, configured_chat_model_refs, ConfiguredChatModelRef, from_keys,
}
use free_claude_code_my_pr_i.Application.Routing.Counting.{
  count_routes_as_message, resolve_token_count_request, TokenCountRequest, RoutedTokenCountRequest,
}
use free_claude_code_my_pr_i.Application.Routing.Advertised.{no_thinking_id_turns_off}
use mathlib.Core.List.{Mem}
use free_claude_code_my_pr_i.Application.Routing.Total.{every_request_is_routed}
use free_claude_code_my_pr_i.Core.GatewayModelIds.{
  decode_cut, under, partition, no_thinking_gateway_model_id,
}
use free_claude_code_my_pr_i.Application.Reasoning.{
  ReasoningEffort, same_codes, codes, ReasoningControl, ReasoningPreference, lower, tokens,
  effort_named, output_effort, MessagesRequest,
}
use free_claude_code_my_pr_i.Application.Routing.{
  resolve, direct_provider_model, ResolvedModel, opus, contains, valid_model,
  supported_provider_ids, is_supported, resolve_messages_request, matched_route, valid_settings,
  RoutedMessagesRequest, Settings, listed,
}
use free_claude_code_my_pr_i.Prelude.{
  rstrip, lstrip, ◌≡◌, refl, inr, true, false, none, some, List, [], ◌∷◌,
}
use free_claude_code_my_pr_i.Core.Thinking.{starts_with}

abbrev settings : Settings
settings = record {
  model = "nvidia_nim/nvidia/nemotron";
  model_fable = none;
  model_opus = some "deepseek/v3";
  model_sonnet = none;
  model_haiku = none;
  reasoning_policy = ReasoningPreference.client;
  reasoning_fable = ReasoningPreference.inherit;
  reasoning_opus = ReasoningPreference.high;
  reasoning_sonnet = ReasoningPreference.inherit;
  reasoning_haiku = ReasoningPreference.inherit;
}

abbrev request : MessagesRequest
request = record {
  model = "claude-OPUS-4";
  thinking = some (record {
    enabled_set = true;
    enabled = some true;
    type = some "enabled";
    budget_tokens = some (tokens 2048);
  });
  effort = some " High ";
}

valid : valid_settings settings ≡ true
unfolding valid_settings valid_model partition listed supported_provider_ids
valid = refl

to_opus : matched_route request.model ≡ some opus
unfolding matched_route lower codes contains starts_with
to_opus = refl

high_effort : output_effort request.effort ≡ (some ReasoningEffort.high, false)
unfolding output_effort effort_named lower codes same_codes lstrip rstrip
high_effort = refl

known_provider : is_supported "deepseek" ≡ true
unfolding listed supported_provider_ids
known_provider = refl

every_request_is_routed_example :
    (routed : RoutedMessagesRequest) × (resolve_messages_request settings request ≡ inr routed)
    × (is_supported routed.resolved.provider_id ≡ true)
    × (routed.request.model ≡ routed.resolved.provider_model)
every_request_is_routed_example = every_request_is_routed settings request valid

abbrev quiet : MessagesRequest
quiet = record request { model = no_thinking_gateway_model_id (under "deepseek" "v3") }

no_thinking_id_turns_off_example :
    resolve_messages_request settings quiet
    ≡ inr (record {
      request = record quiet { model = "v3" };
      resolved = record {
        original_model = quiet.model;
        provider_id = "deepseek";
        provider_model = "v3";
        provider_model_ref = quiet.model;
        reasoning_preference = ReasoningPreference.off;
      };
      reasoning = record { control = ReasoningControl.off; effort = none; budget_tokens = none };
    })
no_thinking_id_turns_off_example =
    no_thinking_id_turns_off settings quiet "deepseek" "v3" known_provider refl refl

abbrev count : TokenCountRequest
count = record { model = "claude-OPUS-4"; thinking = none; effort = none }

count_routes_as_message_example :
    (routed : RoutedMessagesRequest) × (counted : RoutedTokenCountRequest)
    × (resolve_messages_request settings request ≡ inr routed)
    × (resolve_token_count_request settings count ≡ inr counted)
    × (counted.resolved ≡ routed.resolved)
    × (counted.request ≡ record count { model = routed.request.model })
count_routes_as_message_example = count_routes_as_message settings request count valid refl

configured_chat_model_refs-Lists_example :
    (refs : List ConfiguredChatModelRef) × (configured_chat_model_refs settings ≡ some refs)
    × Lists settings refs
configured_chat_model_refs-Lists_example = configured_chat_model_refs-Lists settings valid

-- A model that two settings name is listed once.
listed_once :
    from_keys (chat_models (record settings { model_haiku = some "deepseek/v3" })) []
    ≡ "nvidia_nim/nvidia/nemotron" ∷ "deepseek/v3" ∷ []
unfolding from_keys elem
listed_once = refl

opus_is_mapped : direct_provider_model "claude-OPUS-4" ≡ none
unfolding direct_provider_model partition decode_cut
opus_is_mapped = refl

mapped_model_is_listed_example :
    (r : ResolvedModel) × (refs : List ConfiguredChatModelRef) × (resolve settings "claude-OPUS-4"
      ≡ inr r)
    × (configured_chat_model_refs settings ≡ some refs)
    × Mem
        (record {
          model_ref = r.provider_model_ref;
          provider_id = r.provider_id;
          model_id = r.provider_model;
        })
        refs
mapped_model_is_listed_example =
    mapped_model_is_listed settings "claude-OPUS-4" valid opus_is_mapped
