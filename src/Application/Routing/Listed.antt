-- ===== src/Application/Routing/Listed.antt =====
-- config/model_refs.py and application/routing.py: the models that routing chooses are listed.
use free_claude_code_my_pr_i.Application.Routing.Total.{ref-valid}
use mathlib.Core.List.{Mem, mem-cons_self, mem-cons_of_mem}
use free_claude_code_my_pr_i.Core.GatewayModelIds.Decoding.{under-partition}
use free_claude_code_my_pr_i.Core.GatewayModelIds.{under, partition}
use free_claude_code_my_pr_i.Application.Routing.Refs.{
  ConfiguredChatModelRef, chat_models, from_keys, refs_of, configured_chat_model_refs,
}
use free_claude_code_my_pr_i.Application.Routing.{
  haiku, sonnet, opus, fable, Route, model_of, matched_route, resolve_reasoning_preference,
  resolve_configured, resolve, ResolvedModel, direct_provider_model, resolve_model_ref, Settings,
  parse_model_name, parse_provider_type, valid_model, valid_settings, is_supported,
}
use free_claude_code_my_pr_i.Prelude.Dict.{distinct-snoc, distinct, elem-append, elem}
use free_claude_code_my_pr_i.Prelude.{
  String, ◌≡◌, refl, sym, ap, subst, ◌∙◌, inl, inr, Bool, true, false, ◌||◌, false≢true, Option,
  none, some, List, [], ◌∷◌, ◌++◌, map, arith, str_eq, eq_iff, Bool-cases, All, All-append, by_test,
  by_option,
}

abbrev pub is_text : Option String → String → Bool
is_text none t = false
is_text (some s) t = str_eq s t

-- Is the text one of the models that are set?
unfoldable pub is_given : String → List (Option String) → Bool
is_given t [] = false
is_given t (none ∷ models) = is_given t models
is_given t (some model ∷ models) = str_eq model t || is_given t models

from_keys-elem :
    (t : String) (models : List (Option String)) (keys : List String)
    → elem t (from_keys models keys) ≡ (elem t keys || is_given t models)
unfolding from_keys is_given elem
from_keys-elem t [] keys = ground arith
from_keys-elem t (none ∷ models) keys = from_keys-elem t models keys
from_keys-elem t (some model ∷ models) keys = elim (Bool-cases (elem model keys)) [
  | inl old ↦ ground (arith, from_keys-elem t models keys, eq_iff model t)
  | inr new ↦
      ground (arith, from_keys-elem t models (keys ++ model ∷ []), elem-append t keys (model ∷ []))
]

from_keys-distinct :
    (models : List (Option String)) (keys : List String)
    → distinct keys ≡ true
    → distinct (from_keys models keys) ≡ true
unfolding from_keys
from_keys-distinct [] keys h = h
from_keys-distinct (none ∷ models) keys h = from_keys-distinct models keys h
from_keys-distinct (some model ∷ models) keys h = from_keys-distinct models _ (
    by_test (λ ks. distinct ks ≡ true) (elem model keys) _ _ (λ _. h)
      (λ new. distinct-snoc model keys h new))

abbrev IsValidRef : String → Type 0
IsValidRef ref = valid_model (some ref) ≡ true

from_keys-All :
    (models : List (Option String)) (keys : List String)
    → All (λ m. valid_model m ≡ true) models
    → All IsValidRef keys
    → All IsValidRef (from_keys models keys)
unfolding from_keys
from_keys-All [] keys given all = all
from_keys-All (none ∷ models) keys given all = from_keys-All models keys given.1 all
from_keys-All (some model ∷ models) keys given all = from_keys-All models _ given.1 (
    by_test (All IsValidRef) (elem model keys) _ _ (λ _. all)
      (λ _. All-append IsValidRef keys (model ∷ []) all (given.0, tt)))

-- A reference is cut at its first slash, into a provider of the catalogue and its model.
abbrev pub IsSplit : ConfiguredChatModelRef → Type 0
IsSplit r = (is_supported r.provider_id ≡ true) × (r.model_ref ≡ under r.provider_id r.model_id)

ref-IsSplit :
    (ref : String)
    → IsValidRef ref
    → (model : String) × (parse_model_name ref ≡ some model)
      × IsSplit
          (record { model_ref = ref; provider_id = parse_provider_type ref; model_id = model })
unfolding parse_model_name parse_provider_type valid_model
ref-IsSplit ref h =
    let found : (partition ref).found ≡ true = ground arith in
    let known : is_supported (partition ref).before ≡ true = ground arith in
    ((partition ref).after, ground arith, (known, (under-partition ref found).0))

-- The reference of a key stands in the list.
abbrev Finds : List ConfiguredChatModelRef → String → Type 0
Finds refs key =
    (model : String) × (parse_model_name key ≡ some model)
    × Mem (record { model_ref = key; provider_id = parse_provider_type key; model_id = model }) refs

-- The references of models that pass their validator
abbrev Cuts : List String → Type 0
Cuts keys =
    (refs : List ConfiguredChatModelRef) × (refs_of keys ≡ some refs)
    × (map (λ (r : ConfiguredChatModelRef). r.model_ref) refs ≡ keys)
    × All IsSplit refs
    × ((key : String) → elem key keys ≡ true → Finds refs key)

refs_of-cons :
    (ref model : String) (keys : List String) (refs : List ConfiguredChatModelRef)
    → parse_model_name ref ≡ some model
    → refs_of keys ≡ some refs
    → refs_of (ref ∷ keys)
      ≡ some (
          record { model_ref = ref; provider_id = parse_provider_type ref; model_id = model }
          ∷ refs)
unfolding refs_of
refs_of-cons ref model keys refs parsed e = ground arith

refs_of-Cuts : (keys : List String) → All IsValidRef keys → Cuts keys
unfolding refs_of elem
refs_of-Cuts [] all = ([], refl, refl, tt, λ key there. absurd (false≢true there))
refs_of-Cuts (ref ∷ keys) all =
    let (model, parsed, splits) = ref-IsSplit ref all.0 in
    let (refs, e, names, split, found) = refs_of-Cuts keys all.1 in
    let here : ConfiguredChatModelRef = record {
      model_ref = ref;
      provider_id = parse_provider_type ref;
      model_id = model;
    } in
    (
      here ∷ refs,
      refs_of-cons ref model keys refs parsed e,
      ap (λ ks. ref ∷ ks) names,
      (splits, split),
      λ key there. elim (Bool-cases (str_eq ref key)) [
        | inl same ↦
            subst (λ k. Finds (here ∷ refs) k) ((eq_iff ref key).0 same)
              (model, parsed, mem-cons_self)
        | inr other ↦
            let (m, known, listed) = found key (ground arith) in
            (m, known, mem-cons_of_mem here listed)
      ],
    )

-- Is the text the model of the settings, or of one of their routes?
abbrev pub names_model : Settings → String → Bool
names_model s t =
    str_eq s.model t
    || (is_text s.model_fable t
        || (is_text s.model_opus t || (is_text s.model_sonnet t || is_text s.model_haiku t)))

given-option :
    (t : String) (o : Option String) (models : List (Option String))
    → is_given t (o ∷ models) ≡ (is_text o t || is_given t models)
unfolding is_given
given-option t none models = refl
given-option t (some m) models = refl

given-names_model : (s : Settings) (t : String) → is_given t (chat_models s) ≡ names_model s t
unfolding is_given
given-names_model s t = ground (
  arith,
  given-option t s.model_fable (s.model_opus ∷ s.model_sonnet ∷ s.model_haiku ∷ []),
  given-option t s.model_opus (s.model_sonnet ∷ s.model_haiku ∷ []),
  given-option t s.model_sonnet (s.model_haiku ∷ []),
  given-option t s.model_haiku [],
)

-- What the references of the settings are like
pub record Lists (s : Settings) (refs : List ConfiguredChatModelRef) : Type 0 where
  pub once : distinct (map (λ (r : ConfiguredChatModelRef). r.model_ref) refs) ≡ true
  pub given :
      (t : String)
      → elem t (map (λ (r : ConfiguredChatModelRef). r.model_ref) refs) ≡ names_model s t
  pub split : All IsSplit refs

all_valid :
    (s : Settings) → valid_settings s ≡ true → All (λ m. valid_model m ≡ true) (chat_models s)
unfolding valid_settings
all_valid s h =
    let a : valid_model (some s.model) ≡ true = ground arith in
    let b : valid_model s.model_fable ≡ true = ground arith in
    let c : valid_model s.model_opus ≡ true = ground arith in
    let d : valid_model s.model_sonnet ≡ true = ground arith in
    let e : valid_model s.model_haiku ≡ true = ground arith in (a, (b, (c, (d, (e, tt)))))

configured-Cuts : (s : Settings) → valid_settings s ≡ true → Cuts (from_keys (chat_models s) [])
configured-Cuts s h = refs_of-Cuts _ (from_keys-All (chat_models s) [] (all_valid s h) tt)

-- With settings that pass their validators, `configured_chat_model_refs` returns a reference for each
-- model that is set and for no other, none twice, each cut at its first slash into a provider of the
-- catalogue and its model.
pub configured_chat_model_refs-Lists :
    (settings : Settings)
    → valid_settings settings ≡ true
    → (refs : List ConfiguredChatModelRef) × (configured_chat_model_refs settings ≡ some refs)
      × Lists settings refs
unfolding configured_chat_model_refs elem distinct
configured_chat_model_refs-Lists s h =
    let (refs, e, names, split, found) = configured-Cuts s h in
    (
      refs,
      e,
      record {
        once = rw names (from_keys-distinct (chat_models s) [] refl);
        given = λ t. rw names (from_keys-elem t (chat_models s) [] ∙ given-names_model s t);
        split = split;
      },
    )

given-here :
    (m : String) (o : Option String) (models : List (Option String))
    → o ≡ some m
    → is_given m (o ∷ models) ≡ true
unfolding is_given
given-here m o models e =
    subst (λ o. is_given m (o ∷ models) ≡ true) (sym e) (ground (arith, eq_iff m m))

given-later :
    (m : String) (o : Option String) (models : List (Option String))
    → is_given m models ≡ true
    → is_given m (o ∷ models) ≡ true
unfolding is_given
given-later m none models h = h
given-later m (some k) models h = ground arith

route-given :
    (s : Settings) (route : Route) (m : String)
    → model_of route s ≡ some m
    → is_given m (chat_models s) ≡ true
route-given s fable m e = given-later m _ _ (given-here m _ _ e)
route-given s opus m e = given-later m _ _ (given-later m _ _ (given-here m _ _ e))
route-given s sonnet m e =
    given-later m _ _ (given-later m _ _ (given-later m _ _ (given-here m _ _ e)))
route-given s haiku m e =
    given-later m _ _
      (given-later m _ _ (given-later m _ _ (given-later m _ _ (given-here m _ _ e))))

chosen-given :
    (s : Settings) (name : String) → is_given (resolve_model_ref s name) (chat_models s) ≡ true
unfolding resolve_model_ref
chosen-given s name =
    by_option (λ m. is_given m (chat_models s) ≡ true) (matched_route name) _ _
      (λ _. given-here s.model _ _ refl)
      (λ route _.
        by_option (λ m. is_given m (chat_models s) ≡ true) (model_of route s) _ _
          (λ _. given-here s.model _ _ refl) (λ m e. route-given s route m e))

resolve-mapped :
    (s : Settings) (name model : String)
    → IsValidRef (resolve_model_ref s name)
    → direct_provider_model name ≡ none
    → parse_model_name (resolve_model_ref s name) ≡ some model
    → resolve s name
      ≡ inr (record {
        original_model = name;
        provider_id = parse_provider_type (resolve_model_ref s name);
        provider_model = model;
        provider_model_ref = resolve_model_ref s name;
        reasoning_preference = resolve_reasoning_preference s name;
      })
unfolding resolve resolve_configured parse_provider_type valid_model
resolve-mapped s name model valid mapped parsed = ground arith

-- With settings that pass their validators, the model that `resolve` chooses for a name which stands
-- for no provider model by itself is one that `configured_chat_model_refs` lists, with the same
-- provider and the same name at the provider.
pub mapped_model_is_listed :
    (settings : Settings) (name : String)
    → valid_settings settings ≡ true
    → direct_provider_model name ≡ none
    → (r : ResolvedModel) × (refs : List ConfiguredChatModelRef) × (resolve settings name ≡ inr r)
      × (configured_chat_model_refs settings ≡ some refs)
      × Mem
          (record {
            model_ref = r.provider_model_ref;
            provider_id = r.provider_id;
            model_id = r.provider_model;
          })
          refs
unfolding configured_chat_model_refs elem
mapped_model_is_listed s name h mapped =
    let ref = resolve_model_ref s name in
    let (refs, e, names, split, found) = configured-Cuts s h in
    let (model, parsed, listed) =
      found ref (from_keys-elem ref (chat_models s) [] ∙ chosen-given s name) in
    (
      record {
        original_model = name;
        provider_id = parse_provider_type ref;
        provider_model = model;
        provider_model_ref = ref;
        reasoning_preference = resolve_reasoning_preference s name;
      },
      refs,
      resolve-mapped s name model (ref-valid s name h) mapped parsed,
      e,
      listed,
    )
