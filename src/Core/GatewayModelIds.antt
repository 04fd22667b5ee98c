-- ===== src/Core/GatewayModelIds.antt =====
-- core/gateway_model_ids.py: the model ids that the gateway advertises, and what they stand for.
pub mod Decoding
pub mod Tests
use Prim.Native.Char.{Char, code}
use free_claude_code_my_pr_i.Prelude.{
  ℕ, zero, suc, ◌+◌, ◌-◌, ◌*◌, ◌/◌, ◌%◌, ◌^◌, ◌≤◌, ◌<◌, min, max, String, ◌≡◌, refl, sym, ap, subst,
  ◌∙◌, ◌≢◌, ◌↔◌, ◌⊎◌, inl, inr, Bool, true, false, not, ◌&&◌, ◌||◌, false≢true, Option, none, some,
  List, [], ◌∷◌, ◌++◌, map, arith, str_eq, eq_iff, ltb, leb, ◌==◌, if◌then◌else◌, ltb→lt, leb→le,
  ==_iff, Bool-cases, Option-cases, is_some, length, length-append, All, All-append, All-map,
  list_cases, join, join-append, join-last, join-nil, ◌⊕◌, is_empty, strip, strip-empty, by_test,
  by_option,
}

-- What `str.partition("/")` returns. `found` tells whether the separator is there.
pub record Cut : Type 0 where
  pub before : String
  pub found : Bool
  pub after : String

-- s.partition("/")
unfoldable pub partition : String → Cut
partition String.[] = record { before = ""; found = false; after = "" }
partition (String.◌∷◌ c s) =
    let rest = partition s in
    if code c == 47
    then record { before = ""; found = true; after = s }
    else record rest { before = String.◌∷◌ c rest.before }

abbrev pub gateway_prefix : String
gateway_prefix = "anthropic"

abbrev pub no_thinking_prefix : String
no_thinking_prefix = "claude-3-freecc-no-thinking"

pub record DecodedGatewayModelId : Type 0 where
  pub provider_id : String
  pub provider_model : String
  pub force_reasoning_off : Bool

-- f"{prefix}/{rest}"
abbrev pub under : String → String → String
under prefix rest = prefix ⊕ ("/" ⊕ rest)

unfoldable pub gateway_model_id : String → String
gateway_model_id provider_model_ref = under gateway_prefix provider_model_ref

unfoldable pub no_thinking_gateway_model_id : String → String
no_thinking_gateway_model_id provider_model_ref = under no_thinking_prefix provider_model_ref

-- The part of `decode_gateway_model_id` after the prefix is known.
unfoldable pub decode_remainder : Bool → String → Option DecodedGatewayModelId
decode_remainder off remainder =
    let cut = partition remainder in
    if not cut.found || is_empty cut.after
    then none
    else some
        (record { provider_id = cut.before; provider_model = cut.after; force_reasoning_off = off })

-- `decode_gateway_model_id` after its first partition.
unfoldable pub decode_cut : Cut → Option DecodedGatewayModelId
decode_cut cut =
    if not cut.found
    then none
    else if str_eq cut.before gateway_prefix
    then decode_remainder false cut.after
    else if str_eq cut.before no_thinking_prefix
    then decode_remainder true cut.after
    else none

abbrev pub decode_gateway_model_id : String → Option DecodedGatewayModelId
decode_gateway_model_id model_name = decode_cut (partition model_name)

-- The id that is advertised for a decoded id.
abbrev pub advertised_id : DecodedGatewayModelId → String
advertised_id d =
    let ref = under d.provider_id d.provider_model in
    if d.force_reasoning_off then no_thinking_gateway_model_id ref else gateway_model_id ref
