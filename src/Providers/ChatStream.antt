-- ===== src/Providers/ChatStream.antt =====
-- providers/openai_chat/provider.py: how the parts of a chunk of an OpenAI stream, and the end of the
-- stream, become events; providers/open_router/client.py for encrypted reasoning. The parsers that cut a
-- chunk into its parts, and the strings of the provider, come in as the parts.
pub mod Calls
pub mod Parts
pub mod Seen
pub mod Whole
pub mod Contract
pub mod Failing
pub mod Tests
use free_claude_code_my_pr_i.Messaging.Trees.Node.{error}
use free_claude_code_my_pr_i.Core.Streaming.Block.{allocate_index}
use free_claude_code_my_pr_i.Core.Streaming.Emit.{
  stop_block, close_all_blocks, final_stop_reason, start_block, close_unclosed_blocks,
  emit_text_delta, emit_thinking_delta, accumulated_reasoning, yields_if, ◌>>◌, accumulated_text,
  has_emitted_tool_block, ensure_text_block, close_content_blocks, ensure_thinking_block,
}
use free_claude_code_my_pr_i.Providers.ToolCalls.{
  flush_task_args, iter_heuristic_tool_use, flush_tool_argument_alias_buffers, on_ledger, ◌>>>◌,
  process_tool_call, ToolCallDelta, Generates, HeuristicToolUse,
}
use free_claude_code_my_pr_i.Core.Streaming.Ledger.{
  redacted_thinking_content, stop_message, end_message, start_message, Event, Yields,
  AnthropicStreamLedger,
}
use free_claude_code_my_pr_i.Core.Streaming.Json.{Json}
use free_claude_code_my_pr_i.Prelude.Dict
use free_claude_code_my_pr_i.Prelude.Dict.{Dict}
use free_claude_code_my_pr_i.Prelude.Table.{Table}
use free_claude_code_my_pr_i.Prelude.{
  ℕ, zero, suc, ◌+◌, ◌-◌, ◌*◌, ◌/◌, ◌%◌, ◌^◌, ◌≤◌, ◌<◌, min, max, String, ◌≡◌, refl, sym, ap, subst,
  ◌∙◌, ◌≢◌, ◌↔◌, ◌⊎◌, inl, inr, Bool, true, false, not, ◌&&◌, ◌||◌, false≢true, Option, none, some,
  List, [], ◌∷◌, ◌++◌, map, arith, str_eq, eq_iff, ltb, leb, ◌==◌, if◌then◌else◌, ltb→lt, leb→le,
  ==_iff, Bool-cases, Option-cases, is_some, length, length-append, All, All-append, All-map,
  list_cases, join, join-append, join-last, join-nil, ◌⊕◌, is_empty, strip, strip-empty, by_test,
  by_option,
}

-- A part of a chunk. A delta of a tool call has the id with it that it takes if it has none.
pub data Part : Type 0 where
  -- `reasoning_delta(delta)`
  reasoning : String → Part
  -- Encrypted reasoning
  encrypted : String → Part
  -- What the thinking-tag parser says is thinking
  thinking_part : String → Part
  -- What the parser of tool calls leaves of the text
  text_part : String → Part
  heuristic_part : HeuristicToolUse → Part
  calls_part : List (String × ToolCallDelta) → Part

-- What a stream says at its end.
pub record Ending : Type 0 where
  pub finish_reason : Option String
  pub completion_tokens : Option ℕ
  pub prompt_tokens : Option ℕ
  pub usage_fields : Dict ℕ

-- ledger.ensure_text_block() and ledger.emit_text_delta(s)
abbrev pub write_text : String → Yields
write_text s = ensure_text_block >> (λ l. yields_if true (emit_text_delta s) l)

abbrev pub write_thinking : String → Yields
write_thinking s = ensure_thinking_block >> (λ l. yields_if true (emit_thinking_delta s) l)

-- core/anthropic/streaming/emitter.py: STOP_REASON_MAP
abbrev pub stop_reasons : Dict String
stop_reasons =
    ("stop", "end_turn")
    ∷ ("length", "max_tokens")
    ∷ ("tool_calls", "tool_use")
    ∷ ("content_filter", "end_turn")
    ∷ []

unfoldable pub map_stop_reason : Option String → String
map_stop_reason none = "end_turn"
map_stop_reason (some r) =
    if is_empty r
    then "end_turn"
    else elim (Dict.get r stop_reasons) [ none ↦ "end_turn" | some s ↦ s ]

-- An encrypted detail is a block without deltas.
unfoldable pub write_encrypted : String → Yields
write_encrypted s = close_content_blocks >> (λ l.
    let r = allocate_index l.blocks in
    (yields_if true (start_block r.0 (redacted_thinking_content (some s)))
        >> yields_if true (stop_block (some r.0)))
      (record l { blocks = r.1 }))

-- Is there no block, or no text beside some reasoning?
unfoldable pub needs_space : AnthropicStreamLedger → Bool
needs_space l =
    not (is_some l.blocks.text_index || is_some l.blocks.thinking_index || has_emitted_tool_block l)
    || (not (has_emitted_tool_block l)
        && is_empty (strip (accumulated_text l))
        && not (is_empty (strip (accumulated_reasoning l))))

-- A space is written if there is nothing else.
abbrev pub write_space : Generates
write_space t = if needs_space t.ledger then on_ledger (write_text " ") t else ([], t)

-- The events of a message that ends; `estimate` counts the tokens of a ledger.
unfoldable pub end_stream :
    (AnthropicStreamLedger → ℕ)
    → Ending
    → AnthropicStreamLedger
    → List Event × AnthropicStreamLedger
end_stream estimate e l =
    (yields_if true (
          end_message (final_stop_reason (map_stop_reason e.finish_reason) l)
            (some (elim e.completion_tokens [ none ↦ estimate l | some n ↦ n ])) e.prompt_tokens
            e.usage_fields)
        >> yields_if true stop_message)
      l

module _ (loads : String → Option Json) (dumps : Json → String) (aliases : Dict (Dict String)) where
  unfoldable pub write_calls : List (String × ToolCallDelta) → Generates
  write_calls [] t = ([], t)
  write_calls ((fresh_id, tc) ∷ calls) t =
      (process_tool_call loads dumps fresh_id aliases tc >>> write_calls calls) t

  -- `output_reasoning` says whether reasoning is shown.
  unfoldable pub write_part : Bool → Part → Generates
  write_part output_reasoning (reasoning s) t =
      if output_reasoning
      then on_ledger
          (ensure_thinking_block >> (λ l. yields_if (not (is_empty s)) (emit_thinking_delta s) l)) t
      else ([], t)
  write_part output_reasoning (encrypted s) t =
      if output_reasoning then on_ledger (write_encrypted s) t else ([], t)
  write_part output_reasoning (thinking_part s) t =
      if output_reasoning then on_ledger (write_thinking s) t else ([], t)
  write_part output_reasoning (text_part s) t =
      if is_empty s then ([], t) else on_ledger (write_text s) t
  write_part output_reasoning (heuristic_part u) t =
      on_ledger (iter_heuristic_tool_use loads dumps u) t
  write_part output_reasoning (calls_part calls) t =
      (on_ledger close_content_blocks >>> write_calls calls) t

  unfoldable pub write_parts : Bool → List Part → Generates
  write_parts output_reasoning [] t = ([], t)
  write_parts output_reasoning (p ∷ parts) t =
      (write_part output_reasoning p >>> write_parts output_reasoning parts) t

  -- What is emitted before the last events: a space if there is nothing else, and the buffers.
  unfoldable pub complete_blocks : Generates
  complete_blocks =
      write_space
      >>> flush_tool_argument_alias_buffers loads dumps aliases
      >>> flush_task_args loads dumps
      >>> on_ledger close_all_blocks

  -- A stream that is read to its end.
  unfoldable pub stream_response :
      (AnthropicStreamLedger → ℕ) → Bool → List Part → Ending → Generates
  stream_response estimate output_reasoning parts e =
      on_ledger (yields_if true start_message)
      >>> write_parts output_reasoning parts
      >>> complete_blocks
      >>> on_ledger (end_stream estimate e)

  -- A stream that fails after some parts, and of which something was sent or is flushed: the open
  -- blocks are closed. The error event, which comes last, is what api/response_streams.py makes of the
  -- failure that is raised. An attempt of which nothing was sent is discarded, or may be tried again;
  -- that choice is in StreamRecovery.
  unfoldable pub fail_response : Bool → List Part → String → Generates
  fail_response output_reasoning parts message =
      on_ledger (yields_if true start_message)
      >>> write_parts output_reasoning parts
      >>> on_ledger close_unclosed_blocks
      >>> (λ t. (Event.error message ∷ [], t))
