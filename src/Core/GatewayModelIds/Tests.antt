-- ===== src/Core/GatewayModelIds/Tests.antt =====
-- Model ids at concrete inputs.
use free_claude_code_my_pr_i.Core.GatewayModelIds.Decoding.{
  decode-advertised_id, advertised_id-decode, HasNoSlash,
}
use free_claude_code_my_pr_i.Core.GatewayModelIds.{
  partition, decode_remainder, advertised_id, no_thinking_gateway_model_id, DecodedGatewayModelId,
  decode_gateway_model_id, decode_cut,
}
use free_claude_code_my_pr_i.Prelude.{◌≡◌, refl, true, false, none, some, is_empty}

abbrev quiet : DecodedGatewayModelId
quiet = record { provider_id = "deepseek"; provider_model = "v3/base"; force_reasoning_off = true }

advertised : advertised_id quiet ≡ "claude-3-freecc-no-thinking/deepseek/v3/base"
unfolding no_thinking_gateway_model_id
advertised = refl

decoded : decode_gateway_model_id "claude-3-freecc-no-thinking/deepseek/v3/base" ≡ some quiet
unfolding decode_cut decode_remainder partition
decoded = refl

no_model : decode_gateway_model_id "anthropic/deepseek/" ≡ none
unfolding decode_cut decode_remainder partition
no_model = refl

plain_provider : HasNoSlash "deepseek"
unfolding HasNoSlash partition
plain_provider = refl

decode-advertised_id_example : decode_gateway_model_id (advertised_id quiet) ≡ some quiet
decode-advertised_id_example = decode-advertised_id quiet plain_provider refl

advertised_id-decode_example :
    (advertised_id quiet ≡ "claude-3-freecc-no-thinking/deepseek/v3/base")
    × HasNoSlash "deepseek"
    × (is_empty "v3/base" ≡ false)
advertised_id-decode_example =
    advertised_id-decode "claude-3-freecc-no-thinking/deepseek/v3/base" quiet decoded
