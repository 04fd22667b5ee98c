-- ===== src/Providers/ChatStream/Calls.antt =====
-- Every part of a chunk keeps the stream in order.
use free_claude_code_my_pr_i.Core.Streaming.Once.{delta-blocks, input-IsSame, once-Writes, Puts}
use free_claude_code_my_pr_i.Core.Streaming.Emit.{stop_block, delta_block, ◌>>◌}
use free_claude_code_my_pr_i.Core.Streaming.Emitting.{
  input_delta-Follows, text_delta-Follows, thinking_delta-Follows,
}
use free_claude_code_my_pr_i.Core.Streaming.Calls.{finished-Follows, one}
use free_claude_code_my_pr_i.Core.Streaming.Json.{Json}
use free_claude_code_my_pr_i.Providers.ToolCalls.{
  task_input, HeuristicToolUse, iter_heuristic_tool_use,
}
use free_claude_code_my_pr_i.Core.Streaming.Writing.{
  close_content-Writes, yields_if-Writes, ensure_thinking-Writes, ensure_text-Writes, then-Writes,
  Writes,
}
use free_claude_code_my_pr_i.Core.Streaming.Block.{
  StreamBlockLedger, tool_use_block, redacted_thinking_block, StreamBlockState, reserve_index,
  allocate_index,
}
use free_claude_code_my_pr_i.Providers.ChatStream.{write_text, write_thinking, write_encrypted}
use free_claude_code_my_pr_i.Core.Streaming.Sync.{open_kind-opened, open_kind, Sync}
use free_claude_code_my_pr_i.Core.Streaming.Contract.{
  thinking_of, text_of, storage, is_allowed, Checker,
}
use free_claude_code_my_pr_i.Core.Streaming.Emit.{
  close_content_blocks, emit_thinking_delta, emit_text_delta, stop_thinking_block, stop_text_block,
  start_block, yields_if, start_text_block, start_thinking_block, ensure_thinking_block,
  ensure_text_block,
}
use free_claude_code_my_pr_i.Core.Streaming.Ledger.{
  Event, opened_as, ContentBlock, new_state, input_json_delta, thinking_delta, text_delta,
  tool_use_content, redacted_thinking_content, record_block_start, AnthropicStreamLedger,
}
use free_claude_code_my_pr_i.Core.Streaming.Keeping.{delta-Keeps}
use free_claude_code_my_pr_i.Prelude.{
  String, ◌≡◌, refl, ap, ◌∙◌, Bool, true, false, not, Option, none, some, [], ◌∷◌, arith, is_empty,
}

text_on :
    (b : Bool) (l : AnthropicStreamLedger)
    → l.blocks.text_started ≡ b
    → (yields_if (not b) start_text_block l).1.blocks.text_started ≡ true
unfolding start_text_block start_block record_block_start
text_on true l e = e
text_on false l e = refl

thinking_on :
    (b : Bool) (l : AnthropicStreamLedger)
    → l.blocks.thinking_started ≡ b
    → (yields_if (not b) start_thinking_block l).1.blocks.thinking_started ≡ true
unfolding start_thinking_block start_block record_block_start
thinking_on true l e = e
thinking_on false l e = refl

ensure_text-on : (l : AnthropicStreamLedger) → (ensure_text_block l).1.blocks.text_started ≡ true
unfolding ensure_text_block
ensure_text-on l =
    let l1 : AnthropicStreamLedger =
      (yields_if l.blocks.thinking_started stop_thinking_block l).1 in
    text_on l1.blocks.text_started l1 refl

ensure_thinking-on :
    (l : AnthropicStreamLedger) → (ensure_thinking_block l).1.blocks.thinking_started ≡ true
unfolding ensure_thinking_block
ensure_thinking-on l =
    let l1 : AnthropicStreamLedger = (yields_if l.blocks.text_started stop_text_block l).1 in
    thinking_on l1.blocks.thinking_started l1 refl

module _ (l : AnthropicStreamLedger) (c : Checker) (h : Sync l c) where
  emit_text-Writes :
      (s : String) → l.blocks.text_started ≡ true → Writes l c (one (emit_text_delta s l))
  unfolding emit_text_delta
  emit_text-Writes s on = record {
    follows = text_delta-Follows l c h s on;
    keeps = delta-Keeps l.blocks.text_index (text_delta s) l;
  }

  emit_thinking-Writes :
      (s : String) → l.blocks.thinking_started ≡ true → Writes l c (one (emit_thinking_delta s l))
  unfolding emit_thinking_delta
  emit_thinking-Writes s on = record {
    follows = thinking_delta-Follows l c h s on;
    keeps = delta-Keeps l.blocks.thinking_index (thinking_delta s) l;
  }

module _ (l : AnthropicStreamLedger) (c : Checker) (h : Sync l c) where
  pub write_text-Writes : (s : String) → Writes l c (write_text s l)
  write_text-Writes s =
      then-Writes l c ensure_text_block (λ l. yields_if true (emit_text_delta s) l)
        (ensure_text-Writes l c h)
        (λ c' h'. emit_text-Writes (ensure_text_block l).1 c' h' s (ensure_text-on l))

  pub write_thinking-Writes : (s : String) → Writes l c (write_thinking s l)
  write_thinking-Writes s =
      then-Writes l c ensure_thinking_block (λ l. yields_if true (emit_thinking_delta s) l)
        (ensure_thinking-Writes l c h)
        (λ c' h'. emit_thinking-Writes (ensure_thinking_block l).1 c' h' s (ensure_thinking-on l))

  -- Reasoning, which may be empty.
  pub write_reasoning-Writes :
      (s : String)
      → Writes l c (
          (ensure_thinking_block >> (λ l. yields_if (not (is_empty s)) (emit_thinking_delta s) l))
            l)
  write_reasoning-Writes s =
      then-Writes l c ensure_thinking_block
        (λ l. yields_if (not (is_empty s)) (emit_thinking_delta s) l) (ensure_thinking-Writes l c h)
        (λ c' h'.
          yields_if-Writes (ensure_thinking_block l).1 c' (not (is_empty s)) (emit_thinking_delta s)
            h'
            (λ _. emit_thinking-Writes (ensure_thinking_block l).1 c' h' s (ensure_thinking-on l)))

  -- A block for encrypted reasoning, without deltas.
  encrypted-Writes :
      (s : String)
      → Writes l c (
          (yields_if true (start_block l.blocks.next_index (redacted_thinking_content (some s)))
              >> yields_if true (stop_block (some l.blocks.next_index)))
            (record l { blocks = (allocate_index l.blocks).1 }))
  unfolding allocate_index start_block record_block_start reserve_index is_allowed storage text_of
      thinking_of
  encrypted-Writes s =
      let b : StreamBlockState = new_state l.blocks.next_index redacted_thinking_block in
      let blocks : StreamBlockLedger =
        reserve_index l.blocks.next_index (allocate_index l.blocks).1 in
      let block : ContentBlock = redacted_thinking_content (some s) in
      let p : Puts l c h b blocks block = record {
        allowed = refl;
        kind = refl;
        no_text = refl;
        no_thinking = refl;
        index = refl;
        next = omega arith;
        text_started = refl;
        text_index = refl;
        thinking_started = refl;
        thinking_index = refl;
        tool_states = refl;
      } in
      let begun : AnthropicStreamLedger = opened_as l.blocks.next_index b blocks l in
      once-Writes l c h b blocks block p [] begun (record { kinds = λ i. refl; blocks = refl })
        (λ c' h'. finished-Follows begun c' h')

  -- A block of a tool call, with all its arguments at once.
  heuristic-Writes :
      (id name args : String)
      → Writes l c (
          (yields_if true (start_block l.blocks.next_index (tool_use_content id name none))
              >> yields_if true (delta_block (some l.blocks.next_index) (input_json_delta args))
              >> yields_if true (stop_block (some l.blocks.next_index)))
            (record l { blocks = (allocate_index l.blocks).1 }))
  unfolding allocate_index start_block record_block_start reserve_index is_allowed storage text_of
      thinking_of open_kind
  heuristic-Writes id name args =
      let b : StreamBlockState = record (new_state l.blocks.next_index tool_use_block) {
        tool_id = id;
        name = name;
      } in
      let blocks : StreamBlockLedger =
        reserve_index l.blocks.next_index (allocate_index l.blocks).1 in
      let block : ContentBlock = tool_use_content id name none in
      let p : Puts l c h b blocks block = record {
        allowed = refl;
        kind = refl;
        no_text = refl;
        no_thinking = refl;
        index = refl;
        next = omega arith;
        text_started = refl;
        text_index = refl;
        thinking_started = refl;
        thinking_index = refl;
        tool_states = refl;
      } in
      let begun : AnthropicStreamLedger = opened_as l.blocks.next_index b blocks l in
      let r : Event × AnthropicStreamLedger =
        delta_block (some l.blocks.next_index) (input_json_delta args) begun in
      once-Writes l c h b blocks block p (r.0 ∷ []) r.1
        (input-IsSame l.blocks.next_index args begun)
        (λ c' h'. input_delta-Follows begun c' h' l.blocks.next_index args (
          ground (
            arith,
            open_kind-opened l.blocks.next_index l.blocks.next_index b l.open_stack
                l.content_blocks,
          )))

module _ (l : AnthropicStreamLedger) (c : Checker) (h : Sync l c) where
  pub write_encrypted-Writes : (s : String) → Writes l c (write_encrypted s l)
  unfolding write_encrypted allocate_index
  write_encrypted-Writes s =
      then-Writes l c close_content_blocks
        (λ l.
          (yields_if true (start_block l.blocks.next_index (redacted_thinking_content (some s)))
              >> yields_if true (stop_block (some l.blocks.next_index)))
            (record l { blocks = (allocate_index l.blocks).1 }))
        (close_content-Writes l c h) (λ c' h'. encrypted-Writes (close_content_blocks l).1 c' h' s)

  pub iter_heuristic-Writes :
      (loads : String → Option Json) (dumps : Json → String) (u : HeuristicToolUse)
      → Writes l c (iter_heuristic_tool_use loads dumps u l)
  unfolding iter_heuristic_tool_use allocate_index
  iter_heuristic-Writes loads dumps u =
      then-Writes l c close_content_blocks
        (λ l.
          (yields_if true (start_block l.blocks.next_index (tool_use_content u.id u.name none))
              >> yields_if true
                  (delta_block (some l.blocks.next_index) (input_json_delta (dumps (task_input u))))
              >> yields_if true (stop_block (some l.blocks.next_index)))
            (record l { blocks = (allocate_index l.blocks).1 }))
        (close_content-Writes l c h)
        (λ c' h'.
          heuristic-Writes (close_content_blocks l).1 c' h' u.id u.name (dumps (task_input u)))

pub write_text-on :
    (s : String) (l : AnthropicStreamLedger) → (write_text s l).1.blocks.text_started ≡ true
unfolding emit_text_delta
write_text-on s l =
    ap (λ b. b.text_started)
      (delta-blocks (ensure_text_block l).1.blocks.text_index (text_delta s)
        (ensure_text_block l).1)
    ∙ ensure_text-on l
