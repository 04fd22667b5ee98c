-- ===== src/Providers/ToolCalls/Tasks.antt =====
-- The buffers of Task arguments are flushed to their blocks, and a tool call of the text is emitted.
use free_claude_code_my_pr_i.Providers.ToolCalls.Flushing.{emit_flushed-Passes}
use free_claude_code_my_pr_i.Core.Streaming.Tools.{retooled-Live}
use free_claude_code_my_pr_i.Providers.ToolCalls.Arguments.{from_good, IsAsGood, Passes}
use free_claude_code_my_pr_i.Core.Streaming.Contract.{Checker}
use free_claude_code_my_pr_i.Core.Streaming.Stack.{no_repeats}
use free_claude_code_my_pr_i.Core.Streaming.Live.{IsOpenTool, Live, AllOpen}
use free_claude_code_my_pr_i.Core.Streaming.Ledger.{member, AnthropicStreamLedger}
use free_claude_code_my_pr_i.Providers.ToolCalls.{
  state_of, with_blocks, emit_flushed, ToolStream, flush_task_args,
}
use free_claude_code_my_pr_i.Core.Streaming.Indexes.{keys}
use free_claude_code_my_pr_i.Core.Streaming.Block.{
  StreamBlockLedger, is_started, is_pending, flush_task_arg_buffers, flush_states, ToolBlockState,
}
use free_claude_code_my_pr_i.Core.Streaming.Keeping.{add_index, indexes}
use free_claude_code_my_pr_i.Core.Streaming.Json.{Json}
use free_claude_code_my_pr_i.Prelude.Table.{Table}
use free_claude_code_my_pr_i.Prelude.Table
use free_claude_code_my_pr_i.Prelude.{
  ℕ, String, ◌≡◌, refl, ap, ◌∙◌, inl, inr, true, Option, List, [], ◌∷◌, arith, eq_iff, ◌==◌,
  Bool-cases, All, All-map,
}

module _ (loads : String → Option Json) (dumps : Json → String) where
  abbrev flushed : Table ToolBlockState → List (ℕ × String) × Table ToolBlockState
  flushed = flush_states loads dumps

  keys-flushed : (states : Table ToolBlockState) → keys (flushed states).1 ≡ keys states
  unfolding keys flush_states
  keys-flushed [] = refl
  keys-flushed ((i, s) ∷ states) = elim (Bool-cases (is_pending loads s)) [
    | inl p ↦ rw (p, flush_states) (ap (λ ks. i ∷ ks) (keys-flushed states))
    | inr p ↦ rw (p, flush_states) (ap (λ ks. i ∷ ks) (keys-flushed states))
  ]

  indexes-flushed : (states : Table ToolBlockState) → indexes (flushed states).1 ≡ indexes states
  unfolding indexes flush_states
  indexes-flushed [] = refl
  indexes-flushed ((i, s) ∷ states) = elim (Bool-cases (is_pending loads s)) [
    | inl p ↦ rw (p, flush_states) (ap (add_index s.started s.block_index) (indexes-flushed states))
    | inr p ↦ rw (p, flush_states) (ap (add_index s.started s.block_index) (indexes-flushed states))
  ]

  started-flushed :
      (j : ℕ) (states : Table ToolBlockState)
      → is_started (Table.get j (flushed states).1) ≡ is_started (Table.get j states)
  unfolding Table.get flush_states
  started-flushed j [] = refl
  started-flushed j ((i, s) ∷ states) = elim (Bool-cases (is_pending loads s)) [
    | inl p ↦ rw (p, flush_states) (ground (arith, started-flushed j states))
    | inr p ↦ rw (p, flush_states) (ground (arith, started-flushed j states))
  ]

  tools-flushed :
      (l : AnthropicStreamLedger) (states : Table ToolBlockState)
      → AllOpen l states
      → AllOpen l (flushed states).1
  unfolding flush_states
  tools-flushed l [] h = tt
  tools-flushed l ((i, s) ∷ states) h = elim (Bool-cases (is_pending loads s)) [
    | inl p ↦
        rw (p, flush_states)
          (record { block = h.0.block; waits = λ off. refl }, tools-flushed l states h.1)
    | inr p ↦ rw (p, flush_states) (h.0, tools-flushed l states h.1)
  ]

  pending-started :
      (l : AnthropicStreamLedger) (s : ToolBlockState)
      → IsOpenTool l s
      → is_pending loads s ≡ true
      → s.started ≡ true
  pending-started l s o p = elim (Bool-cases s.started) [
    | inl on ↦ on
    | inr off ↦ ground (arith, p, eq_iff s.task_arg_buffer "", o.waits off)
  ]

  -- Only started tool calls have something to flush.
  outs-flushed :
      (l : AnthropicStreamLedger) (states : Table ToolBlockState)
      → AllOpen l states
      → no_repeats (keys states) ≡ true
      → All
          (λ e. (member e.0 (keys states) ≡ true) × (is_started (Table.get e.0 states) ≡ true))
          (flushed states).0
  unfolding keys flush_states Table.get member no_repeats
  outs-flushed l [] h u = tt
  outs-flushed l ((i, s) ∷ states) h u =
      let rest : All
          (λ (e : ℕ × String).
            (member e.0 (keys ((i, s) ∷ states)) ≡ true)
            × (is_started (Table.get e.0 ((i, s) ∷ states)) ≡ true))
          (flushed states).0 =
        All-map
          (λ e. (member e.0 (keys states) ≡ true) × (is_started (Table.get e.0 states) ≡ true))
          (λ e.
            (member e.0 (keys ((i, s) ∷ states)) ≡ true)
            × (is_started (Table.get e.0 ((i, s) ∷ states)) ≡ true))
          (flushed states).0
          (λ e x. elim (Bool-cases (i == e.0)) [
            | inl q ↦ ground (arith, q, x.0, u)
            | inr q ↦ ground (arith, q, x.0, x.1)
          ])
          (outs-flushed l states h.1 (ground (arith, u))) in
      elim (Bool-cases (is_pending loads s)) [
        | inl p ↦
            rw (p, flush_states) ((ground arith, ground (arith, pending-started l s h.0 p)), rest)
        | inr p ↦ rw (p, flush_states) rest
      ]

  pub flush_task_args-Passes :
      (t : ToolStream) (c : Checker) → Live t.ledger c → Passes t c (flush_task_args loads dumps t)
  unfolding flush_task_args flush_task_arg_buffers
  flush_task_args-Passes t c h =
      let states : Table ToolBlockState = t.ledger.blocks.tool_states in
      let b : StreamBlockLedger = (flush_task_arg_buffers loads dumps t.ledger.blocks).1 in
      let good : IsAsGood t.ledger c b = record {
        live =
            retooled-Live t.ledger c h (flushed states).1 (tools-flushed t.ledger states h.tools)
              (ap no_repeats (indexes-flushed states) ∙ h.once)
              (ap no_repeats (keys-flushed states) ∙ h.unique)
              (λ i m. ap (member i) (indexes-flushed states) ∙ m);
        started = λ i. started-flushed i states;
      } in
      from_good t c b (emit_flushed loads dumps (flushed states).0 (with_blocks (λ _. b) t)) good
        (λ h'. emit_flushed-Passes loads dumps (flushed states).0 (with_blocks (λ _. b) t) c h' (
          All-map
            (λ e. (member e.0 (keys states) ≡ true) × (is_started (Table.get e.0 states) ≡ true))
            (λ e. is_started (state_of e.0 (with_blocks (λ _. b) t)) ≡ true) (flushed states).0
            (λ e x. started-flushed e.0 states ∙ x.1)
            (outs-flushed t.ledger states h.tools h.unique)))
