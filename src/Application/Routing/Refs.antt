-- ===== src/Application/Routing/Refs.antt =====
-- config/model_refs.py: `configured_chat_model_refs`, the models that the settings name.
use free_claude_code_my_pr_i.Application.Routing.{Settings, parse_model_name, parse_provider_type}
use free_claude_code_my_pr_i.Prelude.Dict.{elem}
use free_claude_code_my_pr_i.Prelude.{
  String, Option, none, some, List, [], ◌∷◌, ◌++◌, if◌then◌else◌,
}

pub record ConfiguredChatModelRef : Type 0 where
  pub model_ref : String
  pub provider_id : String
  pub model_id : String

-- The tuple of settings that the generator runs over
abbrev pub chat_models : Settings → List (Option String)
chat_models s = some s.model ∷ s.model_fable ∷ s.model_opus ∷ s.model_sonnet ∷ s.model_haiku ∷ []

-- `dict.fromkeys` of the models that are set, where `keys` are the keys so far
unfoldable pub from_keys : List (Option String) → List String → List String
from_keys [] keys = keys
from_keys (none ∷ models) keys = from_keys models keys
from_keys (some model ∷ models) keys =
    from_keys models (if elem model keys then keys else keys ++ model ∷ [])

-- The tuple of references. `none` is the IndexError of a reference without a slash.
unfoldable pub refs_of : List String → Option (List ConfiguredChatModelRef)
refs_of [] = some []
refs_of (ref ∷ refs) =
    let rest = refs_of refs in
    elim (parse_model_name ref) [
      | none ↦ none
      | some model ↦ elim rest [
        | none ↦ none
        | some others ↦ some (
            record { model_ref = ref; provider_id = parse_provider_type ref; model_id = model }
            ∷ others)
      ]
    ]

unfoldable pub configured_chat_model_refs : Settings → Option (List ConfiguredChatModelRef)
configured_chat_model_refs settings = refs_of (from_keys (chat_models settings) [])
