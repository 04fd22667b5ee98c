-- ===== src/Core/Streaming/Starting.antt =====
-- Each call that starts a block.
use free_claude_code_my_pr_i.Core.Streaming.Json.{Fields}
use free_claude_code_my_pr_i.Core.Streaming.Calls.{silent-Follows, one}
use free_claude_code_my_pr_i.Core.Streaming.Follows.{
  opened-Sync, check_event-start, opened_checker, Follows,
}
use free_claude_code_my_pr_i.Core.Streaming.Block.{
  has_fields, reserve_index, allocate_index, thinking_block, text_block, tool_use_block,
}
use free_claude_code_my_pr_i.Core.Streaming.Emit.{
  start_block, start_tool_block, start_text_block, start_thinking_block,
}
use free_claude_code_my_pr_i.Core.Streaming.Sync.{Sync}
use free_claude_code_my_pr_i.Core.Streaming.Contract.{
  storage-empty, is_allowed, thinking_of, text_of, storage, stored, Checker,
}
use free_claude_code_my_pr_i.Core.Streaming.Ledger.{
  new_state, tool_use_content, text_content, thinking_content, content_block_start,
  record_block_start, AnthropicStreamLedger,
}
use free_claude_code_my_pr_i.Prelude.{
  ℕ, String, refl, ap, ◌∙◌, inl, inr, Option, none, some, arith, if◌then◌else◌,
}

module _ (l : AnthropicStreamLedger) (c : Checker) (h : Sync l c) where
  pub start_text-Follows : Follows l c (one (start_text_block l))
  unfolding start_text_block start_block record_block_start allocate_index reserve_index storage
      text_of thinking_of is_allowed
  start_text-Follows =
      silent-Follows l (start_text_block l).1 c (opened_checker l c h (stored text_block))
        (content_block_start l.blocks.next_index (text_content ""))
        (check_event-start l c h (text_content "") refl
          ∙ ap (λ s. some (opened_checker l c h s)) storage-empty)
        (opened-Sync l c h (new_state l.blocks.next_index text_block) (start_text_block l).1.blocks
          (omega arith) refl (inr (refl, refl)) (inl (refl, refl)))
        refl refl refl refl

  pub start_thinking-Follows : Follows l c (one (start_thinking_block l))
  unfolding start_thinking_block start_block record_block_start allocate_index reserve_index storage
      text_of thinking_of is_allowed
  start_thinking-Follows =
      silent-Follows l (start_thinking_block l).1 c (opened_checker l c h (stored thinking_block))
        (content_block_start l.blocks.next_index (thinking_content ""))
        (check_event-start l c h (thinking_content "") refl)
        (opened-Sync l c h (new_state l.blocks.next_index thinking_block)
          (start_thinking_block l).1.blocks (omega arith) refl (inl (refl, refl))
          (inr (refl, refl)))
        refl refl refl refl

  pub start_tool-Follows :
      (k : ℕ) (tool_id name : String) (extra : Option Fields)
      → Follows l c (one (start_tool_block k tool_id name extra l))
  unfolding start_tool_block start_block record_block_start allocate_index reserve_index storage
      text_of thinking_of is_allowed
  start_tool-Follows k tool_id name extra =
      silent-Follows l (start_tool_block k tool_id name extra l).1 c
        (opened_checker l c h (stored tool_use_block))
        (content_block_start l.blocks.next_index
          (tool_use_content tool_id name (if has_fields extra then extra else none)))
        (check_event-start l c h
          (tool_use_content tool_id name (if has_fields extra then extra else none)) refl)
        (opened-Sync l c h
          (record (new_state l.blocks.next_index tool_use_block) {
            tool_id = tool_id;
            name = name;
            extra_content = if has_fields extra then extra else none;
          })
          (start_tool_block k tool_id name extra l).1.blocks (omega arith) refl (inl (refl, refl))
          (inl (refl, refl)))
        refl refl refl refl
