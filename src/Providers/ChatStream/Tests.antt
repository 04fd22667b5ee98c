-- ===== src/Providers/ChatStream/Tests.antt =====
-- Streams at concrete inputs.
use free_claude_code_my_pr_i.Core.Streaming.Block.{
  reserve_index, allocate_index, flush_states, flush_task_arg_buffers, task_args, buffer_task_args,
  merged_name, ensure_tool_state, register_tool_name, set_tool_extra_content, set_stream_tool_id,
}
use free_claude_code_my_pr_i.Core.Streaming.Emit.{
  yields_if, has_content_block, final_stop_reason, filter, tool_blocks, stop_block, delta_block,
  start_block, started_tool, start_tool_block, emit_thinking_delta, emit_text_delta,
  stop_thinking_block, stop_text_block, start_thinking_block, start_text_block,
  ensure_thinking_block, ensure_text_block, close_content_blocks, stop_of, stop_tools,
  close_all_blocks, emit_to, accumulated_reasoning, accumulated_text,
}
use free_claude_code_my_pr_i.Providers.ChatStream.Whole.{new_stream}
use free_claude_code_my_pr_i.Providers.ChatStream.Failing.{failure-meets_contract}
use free_claude_code_my_pr_i.Providers.ChatStream.Contract.{
  stream-accumulates, stream-meets_contract,
}
use free_claude_code_my_pr_i.Providers.ChatStream.{
  write_encrypted, needs_space, map_stop_reason, end_stream, complete_blocks, write_calls,
  write_part, write_parts, encrypted, heuristic_part, calls_part, text_part, reasoning,
  stream_response, fail_response, Ending, Part,
}
use free_claude_code_my_pr_i.Core.Streaming.Ledger.{
  safe_usage_int, new_ledger, update, stop_message, end_message, start_message, member, remove_open,
  remove, cleared, close_state, record_block_stop, record_delta, record_block_delta,
  record_block_start, AnthropicStreamLedger, Event,
}
use free_claude_code_my_pr_i.Core.Streaming.Json.{
  put_field, get_field, normalize_task_run_in_background, no_fields, object, Json,
}
use free_claude_code_my_pr_i.Core.Streaming.Contract.{
  thinking_content_of, text_content_of, meets_contract, event_names,
}
use free_claude_code_my_pr_i.Providers.ToolCalls.{
  on_ledger, task_input, iter_heuristic_tool_use, emit_flushed, flush_task_args, flush_aliased,
  flush_tool_argument_alias_buffers, record_extra_content, emit_task_args, emit_tool_arg_delta,
  emit_arguments, emit_pre_start, start_call, resolved_id, note_call, call_index, process_tool_call,
  index_at, below_zero, ToolStream, ToolCallDelta,
}
use free_claude_code_my_pr_i.Prelude.Dict
use free_claude_code_my_pr_i.Prelude.Table
use free_claude_code_my_pr_i.Prelude.Dict.{Dict}
use free_claude_code_my_pr_i.Prelude.{
  rstrip, lstrip, ℕ, String, ◌≡◌, refl, true, false, Option, none, some, List, [], ◌∷◌, str_eq,
  if◌then◌else◌, join,
}

-- json.loads and json.dumps on the one text that is used here.
abbrev loads : String → Option Json
loads s = if str_eq s "{}" then some (object no_fields) else none

abbrev dumps : Json → String
dumps v = "{}"

abbrev call : ToolCallDelta
call = record {
  index = index_at 0;
  id = some "call_1";
  name = some "Bash";
  arguments = "{}";
  extra_content = none;
}

-- A Task, whose arguments are buffered until they are complete.
abbrev task : ToolCallDelta
task = record call { index = below_zero; name = some "Task"; id = none }

abbrev parts : List Part
parts =
    reasoning "hm"
    ∷ text_part "Hi"
    ∷ calls_part (("tool_1", call) ∷ ("tool_2", task) ∷ [])
    ∷ heuristic_part (record { id = "h"; name = "Bash"; input = object no_fields })
    ∷ encrypted "x"
    ∷ text_part "!"
    ∷ []

abbrev ending : Ending
ending = record {
  finish_reason = some "tool_calls";
  completion_tokens = none;
  prompt_tokens = some 7;
  usage_fields = [];
}

abbrev estimate : AnthropicStreamLedger → ℕ
estimate l = 3

abbrev start : ToolStream
start = new_stream "msg_1" "m" (some 5) true

abbrev run : List Event × ToolStream
run = stream_response loads dumps [] estimate true parts ending start

kinds_of_events :
    event_names run.0
    ≡ "message_start" ∷ "content_block_start" ∷ "content_block_delta" ∷ "content_block_stop"
      ∷ "content_block_start" ∷ "content_block_delta" ∷ "content_block_stop" ∷ "content_block_start"
      ∷ "content_block_delta" ∷ "content_block_start" ∷ "content_block_delta"
      ∷ "content_block_start" ∷ "content_block_delta" ∷ "content_block_stop" ∷ "content_block_start"
      ∷ "content_block_stop" ∷ "content_block_start" ∷ "content_block_delta" ∷ "content_block_stop"
      ∷ "content_block_stop" ∷ "content_block_stop" ∷ "message_delta" ∷ "message_stop" ∷ []
unfolding stream_response write_parts write_part write_calls process_tool_call call_index note_call
    set_stream_tool_id set_tool_extra_content register_tool_name ensure_tool_state merged_name
    resolved_id start_call emit_pre_start emit_arguments emit_tool_arg_delta emit_task_args
    buffer_task_args task_args normalize_task_run_in_background get_field put_field
    record_extra_content emit_to complete_blocks flush_tool_argument_alias_buffers flush_aliased
    flush_task_args flush_task_arg_buffers flush_states emit_flushed close_all_blocks stop_tools
    stop_of close_content_blocks end_stream map_stop_reason needs_space write_encrypted
    iter_heuristic_tool_use task_input ensure_text_block ensure_thinking_block start_text_block
    start_thinking_block stop_text_block stop_thinking_block emit_text_delta emit_thinking_delta
    start_tool_block started_tool start_block delta_block stop_block record_block_start
    record_block_delta record_delta record_block_stop close_state cleared remove remove_open member
    allocate_index reserve_index start_message end_message stop_message update new_ledger
    tool_blocks filter final_stop_reason safe_usage_int Table.get Table.put Table.pop Table.modify
    Dict.get Dict.put lstrip rstrip join
kinds_of_events = refl

stream-meets_contract_example : meets_contract false run.0 ≡ true
stream-meets_contract_example =
    stream-meets_contract loads dumps [] estimate "msg_1" "m" (some 5) true true parts ending

stream-accumulates_example :
    (text_content_of run.0 ≡ accumulated_text run.1.ledger)
    × (thinking_content_of run.0 ≡ accumulated_reasoning run.1.ledger)
stream-accumulates_example =
    stream-accumulates loads dumps [] estimate "msg_1" "m" (some 5) true true parts ending

starts_a_block :
    has_content_block
      (write_parts loads dumps [] true parts
        (on_ledger (yields_if true start_message) start).1).1.ledger
    ≡ true
unfolding stream_response write_parts write_part write_calls process_tool_call call_index note_call
    set_stream_tool_id set_tool_extra_content register_tool_name ensure_tool_state merged_name
    resolved_id start_call emit_pre_start emit_arguments emit_tool_arg_delta emit_task_args
    buffer_task_args task_args normalize_task_run_in_background get_field put_field
    record_extra_content emit_to complete_blocks flush_tool_argument_alias_buffers flush_aliased
    flush_task_args flush_task_arg_buffers flush_states emit_flushed close_all_blocks stop_tools
    stop_of close_content_blocks end_stream map_stop_reason needs_space write_encrypted
    iter_heuristic_tool_use task_input ensure_text_block ensure_thinking_block start_text_block
    start_thinking_block stop_text_block stop_thinking_block emit_text_delta emit_thinking_delta
    start_tool_block started_tool start_block delta_block stop_block record_block_start
    record_block_delta record_delta record_block_stop close_state cleared remove remove_open member
    allocate_index reserve_index start_message end_message stop_message update new_ledger
    tool_blocks filter final_stop_reason safe_usage_int Table.get Table.put Table.pop Table.modify
    Dict.get Dict.put lstrip rstrip join
starts_a_block = refl

abbrev failed : List Event × ToolStream
failed = fail_response loads dumps [] true parts "overloaded" start

failure-meets_contract_example :
    (meets_contract true failed.0 ≡ true) × (failed.1.ledger.open_stack ≡ [])
failure-meets_contract_example =
    failure-meets_contract loads dumps [] "msg_1" "m" (some 5) true true parts "overloaded"
      starts_a_block
