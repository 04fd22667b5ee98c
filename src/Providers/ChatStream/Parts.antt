-- ===== src/Providers/ChatStream/Parts.antt =====
-- The parts of a stream, one after another, and what completes its blocks.
use free_claude_code_my_pr_i.Core.Streaming.Block.{is_started}
use free_claude_code_my_pr_i.Providers.ChatStream.Calls.{
  iter_heuristic-Writes, write_thinking-Writes, write_encrypted-Writes, write_reasoning-Writes,
  write_text-Writes,
}
use free_claude_code_my_pr_i.Providers.ToolCalls.Processing.{
  process_tool_call-StaysIn, then-StaysIn, still-StaysIn, StaysIn,
}
use free_claude_code_my_pr_i.Core.Streaming.Writing.{close_content-Writes, Writes}
use free_claude_code_my_pr_i.Core.Streaming.Ledger.{Yields}
use free_claude_code_my_pr_i.Core.Streaming.Live.{Writes-Stays, Live}
use free_claude_code_my_pr_i.Core.Streaming.Contract.{Checker}
use free_claude_code_my_pr_i.Providers.ChatStream.{
  write_space, calls_part, heuristic_part, text_part, write_thinking, thinking_part,
  write_encrypted, encrypted, write_text, reasoning, needs_space, Part, write_part, write_calls,
  write_parts,
}
use free_claude_code_my_pr_i.Core.Streaming.Json.{Json}
use free_claude_code_my_pr_i.Providers.ToolCalls.{
  iter_heuristic_tool_use, process_tool_call, on_ledger, ToolCallDelta, ToolStream,
}
use free_claude_code_my_pr_i.Core.Streaming.Emit.{
  close_content_blocks, emit_thinking_delta, yields_if, ensure_thinking_block, ◌>>◌,
}
use free_claude_code_my_pr_i.Prelude.Dict.{Dict}
use free_claude_code_my_pr_i.Prelude.Table.{Table}
use free_claude_code_my_pr_i.Prelude.Table
use free_claude_code_my_pr_i.Prelude.{
  String, ap, ◌∙◌, Bool, not, Option, List, [], ◌∷◌, is_empty, by_test,
}

pub Writes-StaysIn :
    (t : ToolStream) (c : Checker) (f : Yields)
    → Live t.ledger c
    → Writes t.ledger c (f t.ledger)
    → StaysIn t c (on_ledger f t)
Writes-StaysIn t c f h w = record {
  stays = Writes-Stays t.ledger c (f t.ledger) h w;
  marked = λ m i b. ap (λ states. is_started (Table.get i states)) w.keeps.states ∙ m i b;
}

pub write_space-StaysIn :
    (t : ToolStream) (c : Checker) → Live t.ledger c → StaysIn t c (write_space t)
write_space-StaysIn t c h =
    by_test (StaysIn t c) (needs_space t.ledger) _ _
      (λ _. Writes-StaysIn t c (write_text " ") h (write_text-Writes t.ledger c h.sync " "))
      (λ _. still-StaysIn t c h)

module _ (loads : String → Option Json) (dumps : Json → String) (aliases : Dict (Dict String)) where
  write_calls-StaysIn :
      (calls : List (String × ToolCallDelta)) (t : ToolStream) (c : Checker)
      → Live t.ledger c
      → StaysIn t c (write_calls loads dumps aliases calls t)
  unfolding write_calls
  write_calls-StaysIn [] t c h = still-StaysIn t c h
  write_calls-StaysIn ((fresh_id, tc) ∷ calls) t c h =
      then-StaysIn t c (process_tool_call loads dumps fresh_id aliases tc)
        (write_calls loads dumps aliases calls)
        (process_tool_call-StaysIn loads dumps fresh_id aliases tc t c h)
        (λ c' h'.
          write_calls-StaysIn calls (process_tool_call loads dumps fresh_id aliases tc t).1 c' h')

  pub write_part-StaysIn :
      (output_reasoning : Bool) (p : Part) (t : ToolStream) (c : Checker)
      → Live t.ledger c
      → StaysIn t c (write_part loads dumps aliases output_reasoning p t)
  unfolding write_part
  write_part-StaysIn shown (reasoning s) t c h =
      by_test (StaysIn t c) shown _ _
        (λ _.
          Writes-StaysIn t c
            (ensure_thinking_block >> (λ l. yields_if (not (is_empty s)) (emit_thinking_delta s) l))
            h (write_reasoning-Writes t.ledger c h.sync s))
        (λ _. still-StaysIn t c h)
  write_part-StaysIn shown (encrypted s) t c h =
      by_test (StaysIn t c) shown _ _
        (λ _. Writes-StaysIn t c (write_encrypted s) h (write_encrypted-Writes t.ledger c h.sync s))
        (λ _. still-StaysIn t c h)
  write_part-StaysIn shown (thinking_part s) t c h =
      by_test (StaysIn t c) shown _ _
        (λ _. Writes-StaysIn t c (write_thinking s) h (write_thinking-Writes t.ledger c h.sync s))
        (λ _. still-StaysIn t c h)
  write_part-StaysIn shown (text_part s) t c h =
      by_test (StaysIn t c) (is_empty s) _ _ (λ _. still-StaysIn t c h)
        (λ _. Writes-StaysIn t c (write_text s) h (write_text-Writes t.ledger c h.sync s))
  write_part-StaysIn shown (heuristic_part u) t c h =
      Writes-StaysIn t c (iter_heuristic_tool_use loads dumps u) h
        (iter_heuristic-Writes t.ledger c h.sync loads dumps u)
  write_part-StaysIn shown (calls_part calls) t c h =
      then-StaysIn t c (on_ledger close_content_blocks) (write_calls loads dumps aliases calls)
        (Writes-StaysIn t c close_content_blocks h (close_content-Writes t.ledger c h.sync))
        (λ c' h'. write_calls-StaysIn calls (on_ledger close_content_blocks t).1 c' h')

  pub write_parts-StaysIn :
      (output_reasoning : Bool) (parts : List Part) (t : ToolStream) (c : Checker)
      → Live t.ledger c
      → StaysIn t c (write_parts loads dumps aliases output_reasoning parts t)
  unfolding write_parts
  write_parts-StaysIn shown [] t c h = still-StaysIn t c h
  write_parts-StaysIn shown (p ∷ parts) t c h =
      then-StaysIn t c (write_part loads dumps aliases shown p)
        (write_parts loads dumps aliases shown parts) (write_part-StaysIn shown p t c h)
        (λ c' h'.
          write_parts-StaysIn shown parts (write_part loads dumps aliases shown p t).1 c' h')
