-- ===== src/Application/Reasoning.antt =====
-- application/reasoning.py, core/reasoning.py and config/reasoning.py: what a request and the settings
-- ask of a provider's reasoning.
pub mod Budget
pub mod Tests
use Prim.Native.Char.{code}
use free_claude_code_my_pr_i.Prelude.{
  ℕ, String, Option, none, some, List, [], ◌∷◌, ◌++◌, Bool, true, false, not, ◌&&◌, ◌||◌, ◌⊎◌, inl,
  inr, ◌==◌, leb, ltb, ◌+◌, if◌then◌else◌, str_eq, strip, is_some,
}

pub data ReasoningPreference : Type 0 where
  inherit off client low medium high xhigh max : ReasoningPreference

pub data ReasoningControl : Type 0 where
  default off on : ReasoningControl

pub data ReasoningEffort : Type 0 where
  minimal low medium high xhigh max : ReasoningEffort

pub record ReasoningPolicy : Type 0 where
  pub control : ReasoningControl
  pub effort : Option ReasoningEffort
  pub budget_tokens : Option ℕ

-- An integer of a request's body
pub data Tokens : Type 0 where
  tokens negative : ℕ → Tokens

-- `enabled_set` tells whether the client sent the field `enabled`.
pub record ThinkingConfig : Type 0 where
  pub enabled_set : Bool
  pub enabled : Option Bool
  pub type : Option String
  pub budget_tokens : Option Tokens

-- The fields that reasoning and routing read. `effort` is the text under the key "effort" of
-- `output_config`, if there is one.
pub record MessagesRequest : Type 0 where
  pub model : String
  pub thinking : Option ThinkingConfig
  pub effort : Option String

-- Why a request is refused.
pub data RoutingError : Type 0 where
  unknown_provider : String → RoutingError
  no_model_name : RoutingError
  inherited_preference : RoutingError
  bad_budget : RoutingError

-- str.lower, for one code point. Every ASCII letter that a lower-case text can hold comes from these.
abbrev pub lowered : ℕ → List ℕ
lowered n =
    if leb 65 n && leb n 90
    then (n + 32) ∷ []
    else if n == 8490
    then 107 ∷ []
    else if n == 304
    then 105 ∷ 775 ∷ []
    else n ∷ []

unfoldable pub codes : String → List ℕ
codes String.[] = []
codes (String.◌∷◌ c s) = code c ∷ codes s

-- The code points of s.lower()
unfoldable pub lower : String → List ℕ
lower String.[] = []
lower (String.◌∷◌ c s) = lowered (code c) ++ lower s

unfoldable pub same_codes : List ℕ → List ℕ → Bool
same_codes [] [] = true
same_codes [] (d ∷ ds) = false
same_codes (c ∷ cs) [] = false
same_codes (c ∷ cs) (d ∷ ds) = (c == d) && same_codes cs ds

-- ReasoningPolicy(...), with the checks of `__post_init__`
unfoldable pub new_policy :
    ReasoningControl → Option ReasoningEffort → Option ℕ → RoutingError ⊎ ReasoningPolicy
new_policy c e none = inr (record { control = c; effort = e; budget_tokens = none })
new_policy ReasoningControl.on e (some n) =
    if n == 0
    then inl bad_budget
    else inr (record { control = ReasoningControl.on; effort = e; budget_tokens = some n })
new_policy ReasoningControl.off e (some n) = inl bad_budget
new_policy ReasoningControl.default e (some n) = inl bad_budget

abbrev pub off_policy : RoutingError ⊎ ReasoningPolicy
off_policy = new_policy ReasoningControl.off none none

abbrev pub on_policy : Option ReasoningEffort → Option ℕ → RoutingError ⊎ ReasoningPolicy
on_policy = new_policy ReasoningControl.on

-- The number, if it is above 0
abbrev pub positive : Option Tokens → Option ℕ
positive none = none
positive (some (tokens n)) = if ltb 0 n then some n else none
positive (some (negative n)) = none

unfoldable pub positive_budget : Option ThinkingConfig → Option ℕ
positive_budget none = none
positive_budget (some t) = positive t.budget_tokens

abbrev is_type : String → ThinkingConfig → Bool
is_type name t = elim t.type [ none ↦ false | some s ↦ str_eq s name ]

-- `"enabled" in thinking.model_fields_set and thinking.enabled is b`, for b = True
abbrev sent_true : ThinkingConfig → Bool
sent_true t = t.enabled_set && elim t.enabled [ none ↦ false | some b ↦ b ]

-- The same for b = False
abbrev sent_false : ThinkingConfig → Bool
sent_false t = t.enabled_set && elim t.enabled [ none ↦ false | some b ↦ not b ]

unfoldable pub thinking_control : Option ThinkingConfig → Option ℕ → ReasoningControl
thinking_control none budget = ReasoningControl.default
thinking_control (some t) budget =
    if is_type "disabled" t || sent_false t
    then ReasoningControl.off
    else if is_type "adaptive" t || is_type "enabled" t || sent_true t || is_some budget
    then ReasoningControl.on
    else ReasoningControl.default

-- ReasoningEffort(text)
unfoldable pub effort_named : List ℕ → Option ReasoningEffort
effort_named s =
    if same_codes s (codes "minimal")
    then some ReasoningEffort.minimal
    else if same_codes s (codes "low")
    then some ReasoningEffort.low
    else if same_codes s (codes "medium")
    then some ReasoningEffort.medium
    else if same_codes s (codes "high")
    then some ReasoningEffort.high
    else if same_codes s (codes "xhigh")
    then some ReasoningEffort.xhigh
    else if same_codes s (codes "max")
    then some ReasoningEffort.max
    else none

-- The effort, and whether it disables reasoning
unfoldable pub output_effort : Option String → Option ReasoningEffort × Bool
output_effort none = (none, false)
output_effort (some raw) =
    let normalized = lower (strip raw) in
    if same_codes normalized (codes "none") then (none, true) else (effort_named normalized, false)

abbrev pub is_on : ReasoningControl → Bool
is_on ReasoningControl.default = false
is_on ReasoningControl.off = false
is_on ReasoningControl.on = true

abbrev pub is_off : ReasoningControl → Bool
is_off ReasoningControl.default = false
is_off ReasoningControl.off = true
is_off ReasoningControl.on = false

unfoldable pub client_reasoning_policy : MessagesRequest → RoutingError ⊎ ReasoningPolicy
client_reasoning_policy request =
    let budget = positive_budget request.thinking in
    let control = thinking_control request.thinking budget in
    let effort = output_effort request.effort in
    if effort.1
    then off_policy
    else if is_off control
    then new_policy ReasoningControl.off effort.0 none
    else if is_on control || is_some budget
    then on_policy effort.0 budget
    else new_policy ReasoningControl.default effort.0 none

unfoldable pub resolve_reasoning_policy :
    MessagesRequest → ReasoningPreference → RoutingError ⊎ ReasoningPolicy
resolve_reasoning_policy request ReasoningPreference.inherit = inl inherited_preference
resolve_reasoning_policy request ReasoningPreference.off = off_policy
resolve_reasoning_policy request ReasoningPreference.client = client_reasoning_policy request
resolve_reasoning_policy request ReasoningPreference.low = on_policy (some ReasoningEffort.low) none
resolve_reasoning_policy request ReasoningPreference.medium =
    on_policy (some ReasoningEffort.medium) none
resolve_reasoning_policy request ReasoningPreference.high =
    on_policy (some ReasoningEffort.high) none
resolve_reasoning_policy request ReasoningPreference.xhigh =
    on_policy (some ReasoningEffort.xhigh) none
resolve_reasoning_policy request ReasoningPreference.max = on_policy (some ReasoningEffort.max) none

-- ReasoningEffort.budget_tokens
abbrev pub effort_budget : ReasoningEffort → ℕ
effort_budget ReasoningEffort.minimal = 512
effort_budget ReasoningEffort.low = 512
effort_budget ReasoningEffort.medium = 1024
effort_budget ReasoningEffort.high = 2048
effort_budget ReasoningEffort.xhigh = 4096
effort_budget ReasoningEffort.max = 8192

-- ReasoningPolicy.output_enabled
abbrev pub output_enabled : ReasoningPolicy → Bool
output_enabled p = not (is_off p.control)

-- ReasoningPolicy.requests_reasoning
unfoldable pub requests_reasoning : ReasoningPolicy → Bool
requests_reasoning p =
    not (is_off p.control) && (is_on p.control || is_some p.effort || is_some p.budget_tokens)

-- ReasoningPolicy.numeric_budget_tokens
unfoldable pub numeric_budget_tokens : ReasoningPolicy → Option ℕ
numeric_budget_tokens p = if is_off p.control then none else elim p.budget_tokens [
  | some n ↦ some n
  | none ↦ elim p.effort [ none ↦ none | some e ↦ some (effort_budget e) ]
]
