-- ===== src/Core/Streaming/Emit.antt =====
-- core/anthropic/streaming/ledger.py: the calls of `AnthropicStreamLedger` that emit events of blocks,
-- and what is read off a ledger.
use free_claude_code_my_pr_i.Prelude.Dict.{map_option}
use free_claude_code_my_pr_i.Core.Streaming.Json.{Fields}
use free_claude_code_my_pr_i.Core.Streaming.Ledger.{
  record_block_stop, record_block_start, text_content, thinking_content, input_json_delta,
  record_block_delta, block_at, text_delta, thinking_delta, Event, tool_use_content,
  content_block_stop, close_state, content_block_start, content_block_delta, Emits, Delta,
  AnthropicStreamLedger, ContentBlock, Yields,
}
use free_claude_code_my_pr_i.Core.Streaming.Block.{
  tool_use_block, has_fields, allocate_index, new_tool_state, StreamBlockState, ToolBlockState,
}
use free_claude_code_my_pr_i.Prelude.Table.{Table}
use free_claude_code_my_pr_i.Prelude.Table
use free_claude_code_my_pr_i.Prelude.{
  ℕ, String, Bool, true, false, not, Option, none, some, List, [], ◌∷◌, ◌++◌, if◌then◌else◌, join,
}

-- An extra content that is empty is left out.
abbrev pub cleaned : ContentBlock → ContentBlock
cleaned (tool_use_content tool_id name extra) =
    tool_use_content tool_id name (if has_fields extra then extra else none)
cleaned block = block

unfoldable pub start_block : ℕ → ContentBlock → Emits
start_block index block l =
    (content_block_start index (cleaned block), record_block_start index (cleaned block) l)

unfoldable pub delta_block : Option ℕ → Delta → Emits
delta_block index d l = (content_block_delta index d, record_block_delta index d l)

unfoldable pub stop_block : Option ℕ → Emits
stop_block index l = (content_block_stop index, record_block_stop index l)

unfoldable pub start_thinking_block : Emits
start_thinking_block l =
    let r = allocate_index l.blocks in
    start_block r.0 (thinking_content "")
      (record l { blocks = record r.1 { thinking_index = some r.0; thinking_started = true } })

unfoldable pub emit_thinking_delta : String → Emits
emit_thinking_delta s l = delta_block l.blocks.thinking_index (thinking_delta s) l

unfoldable pub stop_thinking_block : Emits
stop_thinking_block l =
    stop_block l.blocks.thinking_index
      (record l { blocks = record l.blocks { thinking_started = false } })

unfoldable pub start_text_block : Emits
start_text_block l =
    let r = allocate_index l.blocks in
    start_block r.0 (text_content "")
      (record l { blocks = record r.1 { text_index = some r.0; text_started = true } })

unfoldable pub emit_text_delta : String → Emits
emit_text_delta s l = delta_block l.blocks.text_index (text_delta s) l

unfoldable pub stop_text_block : Emits
stop_text_block l =
    stop_block l.blocks.text_index (record l { blocks = record l.blocks { text_started = false } })

-- The state of a tool call whose block starts at `index`.
unfoldable pub started_tool :
    ℕ → String → String → Option Fields → Option ToolBlockState → ToolBlockState
started_tool index tool_id name extra none = record (new_tool_state name) {
  block_index = some index;
  tool_id = tool_id;
  extra_content = extra;
  started = true;
}
started_tool index tool_id name extra (some s) = record s {
  block_index = some index;
  tool_id = tool_id;
  name = name;
  extra_content = if has_fields extra then extra else s.extra_content;
  started = true;
}

unfoldable pub start_tool_block : ℕ → String → String → Option Fields → Emits
start_tool_block tool_index tool_id name extra l =
    let r = allocate_index l.blocks in
    let states = l.blocks.tool_states in
    let s = started_tool r.0 tool_id name extra (Table.get tool_index states) in
    start_block r.0 (tool_use_content tool_id name extra)
      (record l { blocks = record r.1 { tool_states = Table.put tool_index s states } })

-- The call on the state of a tool call that was looked up.
unfoldable pub emit_to : ToolBlockState → String → Emits
emit_to s partial_json l = delta_block s.block_index (input_json_delta partial_json) l

unfoldable pub stop_of : ToolBlockState → Emits
stop_of s l = stop_block s.block_index l

-- `none` for the KeyError on a tool call that has no state
unfoldable pub emit_tool_delta :
    ℕ → String → AnthropicStreamLedger → Option (Event × AnthropicStreamLedger)
emit_tool_delta tool_index partial_json l =
    map_option (λ s. emit_to s partial_json l) (Table.get tool_index l.blocks.tool_states)

unfoldable pub stop_tool_block : ℕ → AnthropicStreamLedger → Option (Event × AnthropicStreamLedger)
stop_tool_block tool_index l =
    map_option (λ s. stop_of s l) (Table.get tool_index l.blocks.tool_states)

-- A generator that yields nothing, one that yields the event of a call if `b` holds, and one after another.
abbrev pub finished : Yields
finished l = ([], l)

abbrev pub yields_if : Bool → Emits → Yields
yields_if b f l = if b then ((f l).0 ∷ [], (f l).1) else ([], l)

infixr 20 ◌>>◌
abbrev pub ◌>>◌ : Yields → Yields → Yields
(f >> g) l = ((f l).0 ++ (g (f l).1).0, (g (f l).1).1)

unfoldable pub ensure_thinking_block : Yields
ensure_thinking_block =
    (λ l. yields_if l.blocks.text_started stop_text_block l)
    >> (λ l. yields_if (not l.blocks.thinking_started) start_thinking_block l)

unfoldable pub ensure_text_block : Yields
ensure_text_block =
    (λ l. yields_if l.blocks.thinking_started stop_thinking_block l)
    >> (λ l. yields_if (not l.blocks.text_started) start_text_block l)

unfoldable pub close_content_blocks : Yields
close_content_blocks =
    (λ l. yields_if l.blocks.thinking_started stop_thinking_block l)
    >> (λ l. yields_if l.blocks.text_started stop_text_block l)

-- The blocks of the started tool calls are stopped, in the order of the list.
unfoldable pub stop_tools : List (ℕ × ToolBlockState) → Yields
stop_tools [] l = ([], l)
stop_tools ((_, s) ∷ states) l = (yields_if s.started (stop_of s) >> stop_tools states) l

unfoldable pub close_all_blocks : Yields
close_all_blocks = close_content_blocks >> (λ l. stop_tools l.blocks.tool_states l)

-- The blocks of a list are stopped one after the other.
unfoldable pub close_indexes : List ℕ → Yields
close_indexes [] l = ([], l)
close_indexes (i ∷ stack) l =
    let r = close_indexes stack (close_state i (record l { open_stack = stack })) in
    (content_block_stop (some i) ∷ r.0, r.1)

unfoldable pub close_unclosed_blocks : Yields
close_unclosed_blocks l = close_indexes l.open_stack l

abbrev pub is_tool_use : StreamBlockState → Bool
is_tool_use b = elim b.block_type [ tool_use_block ↦ true | _ ↦ false ]

unfoldable pub filter {ℓ} : {A : Type ℓ} → (A → Bool) → List A → List A
filter p [] = []
filter p (x ∷ xs) = let rest = filter p xs in if p x then x ∷ rest else rest

unfoldable pub tool_blocks : AnthropicStreamLedger → List StreamBlockState
tool_blocks l = filter is_tool_use (Table.values l.content_blocks)

unfoldable pub tool_block_for_tool_index : ℕ → AnthropicStreamLedger → Option StreamBlockState
tool_block_for_tool_index tool_index l = elim (Table.get tool_index l.blocks.tool_states) [
  | none ↦ none
  | some s ↦ elim (block_at s.block_index l) [
    | none ↦ none
    | some b ↦ if is_tool_use b then some b else none
  ]
]

abbrev pub is_nil {ℓ} : {A : Type ℓ} → List A → Bool
is_nil [] = true
is_nil (_ ∷ _) = false

abbrev pub has_emitted_tool_block : AnthropicStreamLedger → Bool
has_emitted_tool_block l = not (is_nil (tool_blocks l))

abbrev pub has_content_block : AnthropicStreamLedger → Bool
has_content_block l = not (is_nil l.content_blocks)

unfoldable pub final_stop_reason : String → AnthropicStreamLedger → String
final_stop_reason fallback l = if has_emitted_tool_block l then "tool_use" else fallback

abbrev pub accumulated_text : AnthropicStreamLedger → String
accumulated_text l = join l.text_parts

abbrev pub accumulated_reasoning : AnthropicStreamLedger → String
accumulated_reasoning l = join l.thinking_parts
