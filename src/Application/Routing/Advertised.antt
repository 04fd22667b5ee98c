-- ===== src/Application/Routing/Advertised.antt =====
-- application/routing.py: what becomes of the model ids that the gateway advertises.
use free_claude_code_my_pr_i.Application.Routing.Total.{routed_of}
use free_claude_code_my_pr_i.Application.Reasoning.{
  ReasoningControl, ReasoningPreference, MessagesRequest, new_policy, resolve_reasoning_policy,
}
use free_claude_code_my_pr_i.Core.GatewayModelIds.Decoding.{decode-advertised_id, HasNoSlash}
use free_claude_code_my_pr_i.Core.GatewayModelIds.{
  under, no_thinking_gateway_model_id, advertised_id, DecodedGatewayModelId, partition,
}
use free_claude_code_my_pr_i.Application.Routing.{
  resolve_messages_request, Settings, is_supported, supported_provider_ids, listed, resolve,
  direct_provider_model,
}
use free_claude_code_my_pr_i.Prelude.{
  String, ◌≡◌, refl, sym, ap, subst, ◌∙◌, inl, inr, Bool, true, false, not, ◌&&◌, false≢true, none,
  some, List, [], ◌∷◌, arith, str_eq, eq_iff, Bool-cases, is_empty,
}

all_plain : List String → Bool
all_plain [] = true
all_plain (s ∷ ss) = not (partition s).found && all_plain ss

listed_plain :
    (s : String) (ts : List String)
    → all_plain ts ≡ true
    → listed s ts ≡ true
    → (partition s).found ≡ false
unfolding all_plain listed
listed_plain s [] h e = absurd (false≢true e)
listed_plain s (t ∷ ts) h e = elim (Bool-cases (str_eq s t)) [
  | inl same ↦ subst (λ u. (partition u).found ≡ false) (sym ((eq_iff s t).0 same)) (ground arith)
  | inr other ↦ listed_plain s ts (ground arith) (ground arith)
]

supported-HasNoSlash : (p : String) → is_supported p ≡ true → HasNoSlash p
unfolding HasNoSlash all_plain supported_provider_ids partition
supported-HasNoSlash p = listed_plain p supported_provider_ids refl

direct-advertised :
    (d : DecodedGatewayModelId)
    → is_supported d.provider_id ≡ true
    → is_empty d.provider_model ≡ false
    → direct_provider_model (advertised_id d) ≡ some d
unfolding direct_provider_model
direct-advertised d known full =
    let decoded = decode-advertised_id d (supported-HasNoSlash d.provider_id known) full in
    ground arith

-- A model id that the gateway advertises without thinking is routed to its provider and model, with
-- reasoning off, whatever the settings and the rest of the request say.
pub no_thinking_id_turns_off :
    (settings : Settings) (request : MessagesRequest) (p m : String)
    → is_supported p ≡ true
    → is_empty m ≡ false
    → request.model ≡ no_thinking_gateway_model_id (under p m)
    → resolve_messages_request settings request
      ≡ inr (record {
        request = record request { model = m };
        resolved = record {
          original_model = request.model;
          provider_id = p;
          provider_model = m;
          provider_model_ref = request.model;
          reasoning_preference = ReasoningPreference.off;
        };
        reasoning = record { control = ReasoningControl.off; effort = none; budget_tokens = none };
      })
unfolding resolve resolve_reasoning_policy new_policy
no_thinking_id_turns_off settings request p m known full e =
    let d : DecodedGatewayModelId = record {
      provider_id = p;
      provider_model = m;
      force_reasoning_off = true;
    } in
    let direct : direct_provider_model request.model ≡ some d =
      ap direct_provider_model e ∙ direct-advertised d known full in
    routed_of settings request _ _ (ground arith) refl
