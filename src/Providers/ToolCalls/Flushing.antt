-- ===== src/Providers/ToolCalls/Flushing.antt =====
-- What is left in the buffers goes to the started tool calls, and a tool call of the text is emitted.
use free_claude_code_my_pr_i.Core.Streaming.Emit.{is_nil}
use free_claude_code_my_pr_i.Core.Streaming.Ledger.{Event}
use free_claude_code_my_pr_i.Core.Streaming.Block.{is_started}
use free_claude_code_my_pr_i.Core.Streaming.Live.{AllOpen-get, IsOpenTool, Live}
use free_claude_code_my_pr_i.Core.Streaming.Contract.{Checker}
use free_claude_code_my_pr_i.Providers.ToolCalls.Arguments.{
  emits-Passes, then-Passes, buffer_at, nothing-Passes, Passes, Marked,
}
use free_claude_code_my_pr_i.Core.Streaming.Json.{Json}
use free_claude_code_my_pr_i.Providers.ToolCalls.{
  restored_args, aliases_of, emits, dropped, flush_entry, flush_tool_argument_alias_buffers,
  state_of, drop_buffer, emit_flushed, flush_aliased, ToolStream,
}
use free_claude_code_my_pr_i.Prelude.Dict.{map_option, Dict}
use free_claude_code_my_pr_i.Prelude.Table.{Table}
use free_claude_code_my_pr_i.Prelude.Table
use free_claude_code_my_pr_i.Prelude.{
  ℕ, String, ◌≡◌, ap, ◌∙◌, true, ◌||◌, Option, none, some, List, [], ◌∷◌, arith, str_eq, is_some,
  All, All-map, is_empty, by_test, by_option,
}

drop_buffer-Marked : (i : ℕ) (t : ToolStream) → Marked t → Marked (drop_buffer i t)
drop_buffer-Marked i t m j b = m j (still-there t.alias_buffers b)
  where
    still-there :
        (o : Option (Table String))
        → is_some (buffer_at j (map_option (Table.pop i) o)) ≡ true
        → is_some (buffer_at j o) ≡ true
    still-there none h = h
    still-there (some buffers) h = ground (arith, h, Table.get-pop i j buffers)

dropped-Passes :
    (loads : String → Option Json) (dumps : Json → String) (i : ℕ) (t : ToolStream) (c : Checker)
    (r : List Event × ToolStream)
    → Passes t c r
    → Passes t c (dropped loads dumps i r)
dropped-Passes loads dumps i t c r h = record {
  stays = h.stays;
  started = h.started;
  marked = λ m. drop_buffer-Marked i r.1 (h.marked m);
}

module _ (loads : String → Option Json) (dumps : Json → String) where
  flush_entry-Passes :
      (aliases : Dict (Dict String)) (i : ℕ) (buffered : String) (t : ToolStream) (c : Checker)
      → Live t.ledger c
      → is_started (state_of i t) ≡ true
      → Passes t c (flush_entry loads dumps aliases i buffered t)
  unfolding flush_entry
  flush_entry-Passes aliases i buffered t c h on =
      by_test (Passes t c) (is_empty buffered) _ _
        (λ _. dropped-Passes loads dumps i t c ([], t) (nothing-Passes t c h))
        (λ _.
          by_option (Passes t c) (Table.get i t.ledger.blocks.tool_states) _ _
            (λ _. nothing-Passes t c h)
            (λ s at.
              by_test (Passes t c) (str_eq s.name "Task" || is_nil (aliases_of aliases s.name)) _ _
                (λ _. nothing-Passes t c h)
                (λ _.
                  let args : String =
                    restored_args loads dumps buffered (aliases_of aliases s.name) in
                  dropped-Passes loads dumps i t c (emits s args t) (
                    emits-Passes t c s args h
                      (AllOpen-get t.ledger i s t.ledger.blocks.tool_states h.tools at)
                      (ground (arith, on, at))))))

  -- Every buffer in the list belongs to a started tool call.
  pub flush_aliased-Passes :
      (aliases : Dict (Dict String)) (rest : Table String) (t : ToolStream) (c : Checker)
      → Live t.ledger c
      → ((i : ℕ) → is_some (Table.get i rest) ≡ true → is_started (state_of i t) ≡ true)
      → Passes t c (flush_aliased loads dumps aliases rest t)
  unfolding flush_aliased Table.get
  flush_aliased-Passes aliases [] t c h m = nothing-Passes t c h
  flush_aliased-Passes aliases ((i, buffered) ∷ rest) t c h m =
      let first : Passes t c (flush_entry loads dumps aliases i buffered t) =
        flush_entry-Passes aliases i buffered t c h (m i (ground arith)) in
      then-Passes t c (flush_entry loads dumps aliases i buffered)
        (flush_aliased loads dumps aliases rest) first
        (λ c' h'.
          flush_aliased-Passes aliases rest (flush_entry loads dumps aliases i buffered t).1 c' h'
            (λ j b.
              (flush_entry-Passes aliases i buffered t c h (m i (ground arith))).started j
              ∙ m j (ground (arith, b))))

  pub flush_buffers-Passes :
      (aliases : Dict (Dict String)) (t : ToolStream) (c : Checker)
      → Live t.ledger c
      → Marked t
      → Passes t c (flush_tool_argument_alias_buffers loads dumps aliases t)
  unfolding flush_tool_argument_alias_buffers
  flush_buffers-Passes aliases t c h m =
      by_option (Passes t c) t.alias_buffers _ _ (λ _. nothing-Passes t c h)
        (λ buffers e.
          flush_aliased-Passes aliases buffers t c h
            (λ i b. m i (ap (λ o. is_some (buffer_at i o)) e ∙ b)))

  pub emit_flushed-Passes :
      (outs : List (ℕ × String)) (t : ToolStream) (c : Checker)
      → Live t.ledger c
      → All (λ e. is_started (state_of e.0 t) ≡ true) outs
      → Passes t c (emit_flushed loads dumps outs t)
  unfolding emit_flushed
  emit_flushed-Passes [] t c h m = nothing-Passes t c h
  emit_flushed-Passes ((i, out) ∷ outs) t c h m =
      by_option (Passes t c) (Table.get i t.ledger.blocks.tool_states) _ _
        (λ _. emit_flushed-Passes outs t c h m.1)
        (λ s at.
          let on : s.started ≡ true = ground (arith, m.0, at) in
          let o : IsOpenTool t.ledger s =
            AllOpen-get t.ledger i s t.ledger.blocks.tool_states h.tools at in
          then-Passes t c (emits s out) (emit_flushed loads dumps outs)
            (emits-Passes t c s out h o on)
            (λ c' h'. emit_flushed-Passes outs (emits s out t).1 c' h' (
              All-map (λ e. is_started (state_of e.0 t) ≡ true)
                (λ e. is_started (state_of e.0 (emits s out t).1) ≡ true) outs
                (λ e x. (emits-Passes t c s out h o on).started e.0 ∙ x) m.1)))
