-- ===== src/Application/Routing/Counting.antt =====
-- application/routing.py: requests that count tokens.
use free_claude_code_my_pr_i.Application.Reasoning.{ThinkingConfig, RoutingError, MessagesRequest}
use free_claude_code_my_pr_i.Application.Routing.Total.{routed_of, policy-Returns, resolve-Resolves}
use free_claude_code_my_pr_i.Application.Routing.{
  Settings, ResolvedModel, resolve, valid_settings, RoutedMessagesRequest, resolve_messages_request,
}
use free_claude_code_my_pr_i.Prelude.{
  String, ◌≡◌, refl, ap, ◌∙◌, ◌⊎◌, inl, inr, true, Option, arith,
}

-- The fields that routing reads, and those of a message request's that it leaves as they are
pub record TokenCountRequest : Type 0 where
  pub model : String
  pub thinking : Option ThinkingConfig
  pub effort : Option String

pub record RoutedTokenCountRequest : Type 0 where
  pub request : TokenCountRequest
  pub resolved : ResolvedModel

unfoldable pub resolve_token_count_request :
    Settings → TokenCountRequest → RoutingError ⊎ RoutedTokenCountRequest
resolve_token_count_request settings request = elim (resolve settings request.model) [
  | inl error ↦ inl error
  | inr resolved ↦
      inr (record {
        request = record request { model = resolved.provider_model };
        resolved = resolved;
      })
]

counted_of :
    (settings : Settings) (count : TokenCountRequest) (r : ResolvedModel)
    → resolve settings count.model ≡ inr r
    → resolve_token_count_request settings count
      ≡ inr (record { request = record count { model = r.provider_model }; resolved = r })
unfolding resolve_token_count_request
counted_of settings count r e = ground arith

-- With settings that pass their validators, a request that counts tokens goes to the model of a
-- message request with the same name: both are routed, what the name resolves to is the same, and
-- only the model of the request is replaced.
pub count_routes_as_message :
    (settings : Settings) (request : MessagesRequest) (count : TokenCountRequest)
    → valid_settings settings ≡ true
    → count.model ≡ request.model
    → (routed : RoutedMessagesRequest) × (counted : RoutedTokenCountRequest)
      × (resolve_messages_request settings request ≡ inr routed)
      × (resolve_token_count_request settings count ≡ inr counted)
      × (counted.resolved ≡ routed.resolved)
      × (counted.request ≡ record count { model = routed.request.model })
count_routes_as_message settings request count h same =
    let (r, resolved, known, given) = resolve-Resolves settings request.model h in
    let routed = record request { model = r.provider_model } in
    let (policy, e) = policy-Returns routed r.reasoning_preference given in
    (
      record { request = routed; resolved = r; reasoning = policy },
      record { request = record count { model = r.provider_model }; resolved = r },
      routed_of settings request r policy resolved e,
      counted_of settings count r (ap (resolve settings) same ∙ resolved),
      refl,
      refl,
    )
