-- ===== src/Core/Streaming/Ledger.antt =====
-- core/anthropic/streaming/ledger.py: `AnthropicStreamLedger`. An event is its data, before it is
-- serialised; the text of a call is returned with the ledger after it.
use free_claude_code_my_pr_i.Core.Streaming.Json.{Fields}
use free_claude_code_my_pr_i.Core.Streaming.Block.{
  other_block, redacted_thinking_block, text_block, reserve_index, thinking_block, tool_use_block,
  new_blocks, BlockType, StreamBlockState, StreamBlockLedger,
}
use free_claude_code_my_pr_i.Prelude.Dict.{Dict}
use free_claude_code_my_pr_i.Prelude.Dict
use free_claude_code_my_pr_i.Prelude.Table.{Table}
use free_claude_code_my_pr_i.Prelude.Table
use free_claude_code_my_pr_i.Prelude.{
  ℕ, String, Bool, true, false, ◌||◌, Option, none, some, List, [], ◌∷◌, ◌++◌, ◌==◌, if◌then◌else◌,
  is_empty,
}

-- The `content_block` of a start event: its type with the arguments that the type reads.
pub data ContentBlock : Type 0 where
  thinking_content text_content : String → ContentBlock
  tool_use_content : String → String → Option Fields → ContentBlock
  redacted_thinking_content : Option String → ContentBlock
  other_content : String → ContentBlock

abbrev pub type_of : ContentBlock → BlockType
type_of (thinking_content _) = thinking_block
type_of (text_content _) = text_block
type_of (tool_use_content _ _ _) = tool_use_block
type_of (redacted_thinking_content _) = redacted_thinking_block
type_of (other_content t) = other_block t

-- The `delta` of a delta event.
pub data Delta : Type 0 where
  thinking_delta signature_delta text_delta input_json_delta : String → Delta
  other_delta : String → Delta

pub record Message : Type 0 where
  pub id : String
  pub model : String
  pub input_tokens : ℕ

-- An event of a stream; an index is `none` for -1. A ledger emits no `error`.
pub data Event : Type 0 where
  message_start : Message → Event
  content_block_start : ℕ → ContentBlock → Event
  content_block_delta : Option ℕ → Delta → Event
  content_block_stop : Option ℕ → Event
  message_delta : String → Dict ℕ → Event
  message_stop : Event
  -- The message of an error.
  error : String → Event

pub record AnthropicStreamLedger : Type 0 where
  pub message_id : String
  pub model : String
  pub input_tokens : Option ℕ
  pub blocks : StreamBlockLedger
  pub text_parts : List String
  pub thinking_parts : List String
  -- The last one is in front.
  pub open_stack : List ℕ
  pub content_blocks : Table StreamBlockState
  pub message_started : Bool
  pub message_stopped : Bool
  pub stop_reason : Option String

unfoldable pub new_ledger : String → String → Option ℕ → AnthropicStreamLedger
new_ledger message_id model input_tokens = record {
  message_id = message_id;
  model = model;
  input_tokens = input_tokens;
  blocks = new_blocks;
  text_parts = [];
  thinking_parts = [];
  open_stack = [];
  content_blocks = [];
  message_started = false;
  message_stopped = false;
  stop_reason = none;
}

unfoldable pub safe_usage_int : Option ℕ → ℕ
safe_usage_int none = 0
safe_usage_int (some n) = n

-- A call that returns one event, and a generator, which yields several.
abbrev pub Emits : Type 0
Emits = AnthropicStreamLedger → Event × AnthropicStreamLedger

abbrev pub Yields : Type 0
Yields = AnthropicStreamLedger → List Event × AnthropicStreamLedger

unfoldable pub start_message : Emits
start_message l = (
  message_start
      (record { id = l.message_id; model = l.model; input_tokens = safe_usage_int l.input_tokens }),
  record l { message_started = true },
)

-- usage.update(fields)
unfoldable pub update : Dict ℕ → Dict ℕ → Dict ℕ
update [] d = d
update ((k, v) ∷ fields) d = update fields (Dict.put k v d)

abbrev pub or_else : Option ℕ → Option ℕ → Option ℕ
or_else none b = b
or_else (some a) _ = some a

unfoldable pub end_message : String → Option ℕ → Option ℕ → Dict ℕ → Emits
end_message stop_reason output_tokens input_tokens usage_fields l = (
  message_delta stop_reason (
      update usage_fields (
        ("input_tokens", safe_usage_int (or_else input_tokens l.input_tokens))
        ∷ ("output_tokens", safe_usage_int output_tokens)
        ∷ [])),
  record l { stop_reason = some stop_reason },
)

unfoldable pub stop_message : Emits
stop_message l = (message_stop, record l { message_stopped = true })

abbrev pub new_state : ℕ → BlockType → StreamBlockState
new_state index t = record {
  index = index;
  block_type = t;
  opened = true;
  tool_id = "";
  name = "";
  parts = [];
  extra_content = none;
}

-- `parts.append(s)` if `s` is not empty
abbrev pub append_eager : String → List String → List String
append_eager s parts = if is_empty s then parts else parts ++ s ∷ []

-- The block is stored and put on the stack, after the changes of `b` and the texts.
abbrev pub opened_as :
    ℕ → StreamBlockState → StreamBlockLedger → AnthropicStreamLedger → AnthropicStreamLedger
opened_as index state b l = record l {
  blocks = b;
  content_blocks = Table.put index state l.content_blocks;
  open_stack = index ∷ l.open_stack;
}

unfoldable pub record_block_start : ℕ → ContentBlock → AnthropicStreamLedger → AnthropicStreamLedger
record_block_start index (tool_use_content tool_id name extra) l =
    opened_as index
      (record (new_state index tool_use_block) {
        tool_id = tool_id;
        name = name;
        extra_content = extra;
      })
      (reserve_index index l.blocks) l
record_block_start index (text_content s) l =
    opened_as index (record (new_state index text_block) { parts = append_eager s [] })
      (record (reserve_index index l.blocks) { text_index = some index; text_started = true })
      (record l { text_parts = append_eager s l.text_parts })
record_block_start index (thinking_content s) l =
    opened_as index (record (new_state index thinking_block) { parts = append_eager s [] })
      (record (reserve_index index l.blocks) {
        thinking_index = some index;
        thinking_started = true;
      })
      (record l { thinking_parts = append_eager s l.thinking_parts })
record_block_start index (redacted_thinking_content _) l =
    opened_as index (new_state index redacted_thinking_block) (reserve_index index l.blocks) l
record_block_start index (other_content t) l =
    opened_as index (new_state index (other_block t)) (reserve_index index l.blocks) l

-- A part of the block at `index`.
abbrev pub add_part : ℕ → String → AnthropicStreamLedger → AnthropicStreamLedger
add_part index s l = record l {
  content_blocks =
      Table.modify index (λ b. record b { parts = b.parts ++ s ∷ [] }) l.content_blocks;
}

-- What a delta does to a block of a type.
unfoldable pub record_delta : ℕ → BlockType → Delta → AnthropicStreamLedger → AnthropicStreamLedger
record_delta index text_block (text_delta s) l =
    add_part index s (record l { text_parts = l.text_parts ++ s ∷ [] })
record_delta index thinking_block (thinking_delta s) l =
    add_part index s (record l { thinking_parts = l.thinking_parts ++ s ∷ [] })
record_delta index tool_use_block (input_json_delta s) l = add_part index s l
record_delta index _ _ l = l

-- The block that an index names.
abbrev pub block_at : Option ℕ → AnthropicStreamLedger → Option StreamBlockState
block_at none l = none
block_at (some index) l = Table.get index l.content_blocks

unfoldable pub record_block_delta : Option ℕ → Delta → AnthropicStreamLedger → AnthropicStreamLedger
record_block_delta none d l = l
record_block_delta (some index) d l = elim (Table.get index l.content_blocks) [
  | none ↦ l
  | some b ↦ record_delta index b.block_type d l
]

-- `index == state.index`, for an index that may be -1
abbrev pub is_index : Option ℕ → ℕ → Bool
is_index none i = false
is_index (some j) i = j == i

-- What the end of a block of a type does to the active blocks.
unfoldable pub cleared : BlockType → ℕ → StreamBlockLedger → StreamBlockLedger
cleared text_block i b = if is_index b.text_index i then record b { text_started = false } else b
cleared thinking_block i b =
    if is_index b.thinking_index i then record b { thinking_started = false } else b
cleared _ i b = b

abbrev pub clear_active_content_block : StreamBlockState → StreamBlockLedger → StreamBlockLedger
clear_active_content_block state b = cleared state.block_type state.index b

-- The state is marked as closed, and it is no longer the active block of its type.
unfoldable pub close_state : ℕ → AnthropicStreamLedger → AnthropicStreamLedger
close_state index l = elim (Table.get index l.content_blocks) [
  | none ↦ l
  | some state ↦ record l {
    content_blocks = Table.modify index (λ b. record b { opened = false }) l.content_blocks;
    blocks = clear_active_content_block state l.blocks;
  }
]

-- `x in xs`
unfoldable pub member : ℕ → List ℕ → Bool
member x [] = false
member x (y ∷ xs) = x == y || member x xs

-- `stack.remove(x)`: the entry that is deepest in the stack goes.
unfoldable pub remove : ℕ → List ℕ → List ℕ
remove x [] = []
remove x (y ∷ xs) =
    let rest = remove x xs in if member x xs then y ∷ rest else if x == y then xs else y ∷ rest

-- The top, if it is `x`, or else the deepest `x`.
unfoldable pub remove_open : ℕ → List ℕ → List ℕ
remove_open x [] = []
remove_open x (y ∷ xs) = if x == y then xs else remove x (y ∷ xs)

unfoldable pub record_block_stop : Option ℕ → AnthropicStreamLedger → AnthropicStreamLedger
record_block_stop none l = l
record_block_stop (some index) l =
    close_state index (record l { open_stack = remove_open index l.open_stack })
