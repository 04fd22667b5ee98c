-- ===== src/Providers/ToolCalls/Noting.antt =====
-- What a tool-call delta says of its tool call is noted, and no other tool call starts by that.
use free_claude_code_my_pr_i.Core.Streaming.Tools.{new_tool-Live, on_tool-Live}
use free_claude_code_my_pr_i.Core.Streaming.Json.{Fields}
use free_claude_code_my_pr_i.Providers.ToolCalls.Arguments.{modify-keeps_started, IsAsGood}
use free_claude_code_my_pr_i.Core.Streaming.Live.{Live}
use free_claude_code_my_pr_i.Core.Streaming.Block.{
  has_fields, on_tool, merged_name, new_tool_state, register_tool_name, set_tool_extra_content,
  ensure_tool_state, ToolBlockState, set_stream_tool_id, StreamBlockLedger,
}
use free_claude_code_my_pr_i.Core.Streaming.Contract.{Checker}
use free_claude_code_my_pr_i.Core.Streaming.Ledger.{AnthropicStreamLedger}
use free_claude_code_my_pr_i.Providers.ToolCalls.{given_extra, ToolCallDelta, note_call}
use free_claude_code_my_pr_i.Prelude.Table.{Table}
use free_claude_code_my_pr_i.Prelude.Table
use free_claude_code_my_pr_i.Prelude.{
  ℕ, String, ◌≡◌, refl, ◌∙◌, Option, none, some, arith, is_some, is_empty, by_test, by_option,
}

pub good_refl : (l : AnthropicStreamLedger) (c : Checker) → Live l c → IsAsGood l c l.blocks
good_refl l c h = record { live = h; started = λ i. refl }

pub good_trans :
    (l : AnthropicStreamLedger) (c : Checker) (b b' : StreamBlockLedger)
    → IsAsGood l c b
    → (Live (record l { blocks = b }) c → IsAsGood (record l { blocks = b }) c b')
    → IsAsGood l c b'
good_trans l c b b' h k = record {
  live = (k h.live).live;
  started = λ i. (k h.live).started i ∙ h.started i;
}

module _ (l : AnthropicStreamLedger) (c : Checker) (h : Live l c) where
  pub put_new-IsAsGood :
      (k : ℕ) (name : String)
      → Table.get k l.blocks.tool_states ≡ none
      → IsAsGood l c
          (record l.blocks { tool_states = Table.put k (new_tool_state name) l.blocks.tool_states })
  put_new-IsAsGood k name e = record {
    live = new_tool-Live l c h k name e;
    started = λ i. ground (arith, e, Table.get-put k i (new_tool_state name) l.blocks.tool_states);
  }

  pub ensure-IsAsGood : (k : ℕ) → IsAsGood l c (ensure_tool_state k l.blocks)
  unfolding ensure_tool_state
  ensure-IsAsGood k =
      by_test (IsAsGood l c) (is_some (Table.get k l.blocks.tool_states)) _ _ (λ _. good_refl l c h)
        (λ e. put_new-IsAsGood k "" (ground (arith, e)))

  -- A change that leaves a state's block and its Task arguments alone.
  pub on_tool-IsAsGood :
      (k : ℕ) (f : ToolBlockState → ToolBlockState)
      → ((s : ToolBlockState)
          → ((f s).started ≡ s.started)
            × ((f s).block_index ≡ s.block_index)
            × ((f s).task_arg_buffer ≡ s.task_arg_buffer))
      → IsAsGood l c (on_tool k f l.blocks)
  on_tool-IsAsGood k f same = record {
    live = on_tool-Live l c h k f (λ s. ((same s).0, (same s).1)) (λ s e off. (same s).2);
    started = λ i. modify-keeps_started k i f l.blocks.tool_states (λ s. (same s).0);
  }

module _ (l : AnthropicStreamLedger) (c : Checker) (h : Live l c) where
  -- The same change of a state that is made when it is missing.
  pub ensured-IsAsGood :
      (k : ℕ) (f : ToolBlockState → ToolBlockState)
      → ((s : ToolBlockState)
          → ((f s).started ≡ s.started)
            × ((f s).block_index ≡ s.block_index)
            × ((f s).task_arg_buffer ≡ s.task_arg_buffer))
      → IsAsGood l c (on_tool k f (ensure_tool_state k l.blocks))
  ensured-IsAsGood k f same =
      good_trans l c (ensure_tool_state k l.blocks) (on_tool k f (ensure_tool_state k l.blocks))
        (ensure-IsAsGood l c h k)
        (λ h'. on_tool-IsAsGood (record l { blocks = ensure_tool_state k l.blocks }) c h' k f same)

  pub set_stream_tool_id-IsAsGood :
      (k : ℕ) (id : Option String) → IsAsGood l c (set_stream_tool_id k id l.blocks)
  unfolding set_stream_tool_id
  set_stream_tool_id-IsAsGood k none = good_refl l c h
  set_stream_tool_id-IsAsGood k (some id) =
      by_test (IsAsGood l c) (is_empty id) _ _ (λ _. good_refl l c h)
        (λ _. ensured-IsAsGood k (λ s. record s { tool_id = id }) (λ s. (refl, refl, refl)))

  pub set_tool_extra_content-IsAsGood :
      (k : ℕ) (extra : Option Fields) → IsAsGood l c (set_tool_extra_content k extra l.blocks)
  unfolding set_tool_extra_content
  set_tool_extra_content-IsAsGood k extra =
      by_test (IsAsGood l c) (has_fields extra) _ _
        (λ _.
          ensured-IsAsGood k (λ s. record s { extra_content = extra }) (λ s. (refl, refl, refl)))
        (λ _. good_refl l c h)

  pub register_tool_name-IsAsGood :
      (k : ℕ) (name : String) → IsAsGood l c (register_tool_name k name l.blocks)
  unfolding register_tool_name
  register_tool_name-IsAsGood k name =
      by_test (IsAsGood l c) (is_some (Table.get k l.blocks.tool_states)) _ _
        (λ _.
          on_tool-IsAsGood l c h k (λ s. record s { name = merged_name s.name name })
            (λ s. (refl, refl, refl)))
        (λ e. put_new-IsAsGood l c h k name (ground (arith, e)))

pub note_call-IsAsGood :
    (l : AnthropicStreamLedger) (c : Checker) (tc : ToolCallDelta) (i : ℕ)
    → Live l c
    → IsAsGood l c (note_call tc i l.blocks)
unfolding note_call
note_call-IsAsGood l c tc i h =
    let b1 : StreamBlockLedger = set_stream_tool_id i tc.id l.blocks in
    let b2 : StreamBlockLedger = set_tool_extra_content i (given_extra tc) b1 in
    let good : IsAsGood l c b2 =
      good_trans l c b1 b2 (set_stream_tool_id-IsAsGood l c h i tc.id) (λ h1.
        set_tool_extra_content-IsAsGood (record l { blocks = b1 }) c h1 i (given_extra tc)) in
    by_option (IsAsGood l c) tc.name _ _ (λ _. good)
      (λ name _.
        good_trans l c b2 (register_tool_name i name b2) good
          (λ h2. register_tool_name-IsAsGood (record l { blocks = b2 }) c h2 i name))
