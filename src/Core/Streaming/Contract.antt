-- ===== src/Core/Streaming/Contract.antt =====
-- core/anthropic/stream_contracts.py: what a stream of events must satisfy, and the texts in it.
-- An index that is -1 names no open block.
use free_claude_code_my_pr_i.Core.Streaming.Block.{
  tool_use_block, thinking_block, text_block, other_block, BlockType,
}
use free_claude_code_my_pr_i.Core.Streaming.Ledger.{
  input_json_delta, message_delta, signature_delta, member, tool_use_content, thinking_delta,
  content_block_stop, type_of, message_stop, content_block_delta, text_delta, text_content, error,
  message_start, content_block_start, ContentBlock, Event, Delta,
}
use free_claude_code_my_pr_i.Prelude.Table.{Table}
use free_claude_code_my_pr_i.Prelude.Table
use free_claude_code_my_pr_i.Prelude.{
  ℕ, String, ◌≡◌, ap, Bool, true, false, not, ◌&&◌, ◌||◌, Option, none, some, List, [], ◌∷◌, map,
  str_eq, if◌then◌else◌, is_some, ◌⊕◌, is_empty, strip, strip-empty,
}

-- How an open block is remembered.
pub data Storage : Type 0 where
  text_eager : Storage
  stored : BlockType → Storage

pub record Checker : Type 0 where
  pub open_blocks : Table Storage
  pub seen_blocks : List ℕ

abbrev pub new_checker : Checker
new_checker = record { open_blocks = []; seen_blocks = [] }

-- block_type in _ALLOWED_BLOCK_START_TYPES
unfoldable pub is_allowed : BlockType → Bool
is_allowed (other_block t) =
    str_eq t "server_tool_use"
    || str_eq t "web_search_tool_result"
    || str_eq t "web_fetch_tool_result"
is_allowed _ = true

unfoldable pub storage : ContentBlock → Storage
storage (text_content s) = if is_empty (strip s) then stored text_block else text_eager
storage block = stored (type_of block)

pub storage-empty : storage (text_content "") ≡ stored text_block
unfolding storage
storage-empty = ap (λ s. if is_empty s then stored text_block else text_eager) strip-empty

-- May a block that is remembered so get this delta?
unfoldable pub accepts : Storage → Delta → Bool
accepts (stored text_block) (text_delta _) = true
accepts (stored thinking_block) (thinking_delta _) = true
accepts (stored thinking_block) (signature_delta _) = true
accepts (stored tool_use_block) (input_json_delta _) = true
accepts _ _ = false

-- The open block that an index names.
abbrev pub open_at : Option ℕ → Checker → Option Storage
open_at none c = none
open_at (some i) c = Table.get i c.open_blocks

abbrev pub without : Option ℕ → Checker → Checker
without none c = c
without (some i) c = record c { open_blocks = Table.pop i c.open_blocks }

-- One round of the loop; `none` is an AssertionError.
unfoldable pub check_event : Bool → Event → Checker → Option Checker
check_event allow_error (error _) c = if allow_error then some c else none
check_event allow_error (content_block_start i block) c =
    if is_allowed (type_of block)
      && not (is_some (Table.get i c.open_blocks))
      && not (member i c.seen_blocks)
    then some (record {
      open_blocks = Table.put i (storage block) c.open_blocks;
      seen_blocks = i ∷ c.seen_blocks;
    })
    else none
check_event allow_error (content_block_delta index d) c = elim (open_at index c) [
  | none ↦ none
  | some s ↦ if accepts s d then some c else none
]
check_event allow_error (content_block_stop index) c =
    if is_some (open_at index c) then some (without index c) else none
check_event allow_error (message_start _) c = some c
check_event allow_error (message_delta _ _) c = some c
check_event allow_error message_stop c = some c

unfoldable pub check_events : Bool → List Event → Checker → Option Checker
check_events allow_error [] c = some c
check_events allow_error (e ∷ events) c = elim (check_event allow_error e c) [
  | none ↦ none
  | some c' ↦ check_events allow_error events c'
]

unfoldable pub has_message_start : List Event → Bool
has_message_start [] = false
has_message_start (message_start _ ∷ _) = true
has_message_start (_ ∷ events) = has_message_start events

abbrev pub is_terminal : Bool → Event → Bool
is_terminal allow_error message_stop = true
is_terminal allow_error (error _) = allow_error
is_terminal allow_error _ = false

-- Is the last event a terminal one?
unfoldable pub ends_terminal : Bool → List Event → Bool
ends_terminal allow_error [] = false
ends_terminal allow_error (e ∷ []) = is_terminal allow_error e
ends_terminal allow_error (_ ∷ e ∷ events) = ends_terminal allow_error (e ∷ events)

-- No block is open, and some block was seen.
abbrev pub is_finished : Checker → Bool
is_finished c = elim c.open_blocks [ [] ↦ elim c.seen_blocks [ [] ↦ false | _ ↦ true ] | _ ↦ false ]

abbrev pub ends_well : Option Checker → Bool
ends_well none = false
ends_well (some c) = is_finished c

-- Does `assert_anthropic_stream_contract` return?
unfoldable pub meets_contract : Bool → List Event → Bool
meets_contract allow_error events =
    has_message_start events
    && ends_terminal allow_error events
    && ends_well (check_events allow_error events new_checker)

-- The text that an event adds.
unfoldable pub text_of : Event → String
text_of (content_block_start _ (text_content s)) = s
text_of (content_block_delta _ (text_delta s)) = s
text_of _ = ""

unfoldable pub thinking_of : Event → String
thinking_of (content_block_delta _ (thinking_delta s)) = s
thinking_of _ = ""

unfoldable pub text_content_of : List Event → String
text_content_of [] = ""
text_content_of (e ∷ events) = text_of e ⊕ text_content_of events

unfoldable pub thinking_content_of : List Event → String
thinking_content_of [] = ""
thinking_content_of (e ∷ events) = thinking_of e ⊕ thinking_content_of events

abbrev pub event_name : Event → String
event_name (message_start _) = "message_start"
event_name (content_block_start _ _) = "content_block_start"
event_name (content_block_delta _ _) = "content_block_delta"
event_name (content_block_stop _) = "content_block_stop"
event_name (message_delta _ _) = "message_delta"
event_name message_stop = "message_stop"
event_name (error _) = "error"

abbrev pub event_names : List Event → List String
event_names = map event_name

unfoldable pub has_tool_use : List Event → Bool
has_tool_use [] = false
has_tool_use (content_block_start _ (tool_use_content _ _ _) ∷ _) = true
has_tool_use (_ ∷ events) = has_tool_use events
