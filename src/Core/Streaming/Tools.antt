-- ===== src/Core/Streaming/Tools.antt =====
-- Tool calls in a stream: the block of a tool call starts, takes arguments, and its state changes.
use free_claude_code_my_pr_i.Core.Streaming.Keeping.{start-KeepsOpen, indexes, delta-Keeps, Covered}
use free_claude_code_my_pr_i.Core.Streaming.Indexes.{
  keys, keys-modify, keys-put, indexes-modify, indexes-put, member-indexes-start, indexes-put_new,
}
use free_claude_code_my_pr_i.Prelude.Dict.{map_option}
use free_claude_code_my_pr_i.Core.Streaming.Emitting.{input_delta-Follows}
use free_claude_code_my_pr_i.Core.Streaming.Starting.{start_tool-Follows}
use free_claude_code_my_pr_i.Core.Streaming.Json.{Fields}
use free_claude_code_my_pr_i.Core.Streaming.Sync.{open_kind-opened, open_kind-member}
use free_claude_code_my_pr_i.Core.Streaming.Calls.{one}
use free_claude_code_my_pr_i.Core.Streaming.Follows.{Follows, stack-absent}
use free_claude_code_my_pr_i.Core.Streaming.Stack.{no_repeats}
use free_claude_code_my_pr_i.Core.Streaming.Emit.{
  started_tool, delta_block, start_block, emit_to, start_tool_block,
}
use free_claude_code_my_pr_i.Core.Streaming.Live.{
  indexes-open, Writes-Stays, Stays, AllOpen-map, AllOpen-put, AllOpen-modify, IsOpenTool, AllOpen,
  Live,
}
use free_claude_code_my_pr_i.Core.Streaming.Contract.{stored, Checker}
use free_claude_code_my_pr_i.Core.Streaming.Block.{
  is_started, StreamBlockLedger, has_fields, StreamBlockState, tool_use_block, reserve_index,
  allocate_index, new_tool_state, on_tool, ToolBlockState,
}
use free_claude_code_my_pr_i.Core.Streaming.Ledger.{
  opened_as, new_state, input_json_delta, record_block_start, member, AnthropicStreamLedger,
}
use free_claude_code_my_pr_i.Prelude.Table.{Table}
use free_claude_code_my_pr_i.Prelude.Table
use free_claude_code_my_pr_i.Prelude.{
  ℕ, String, ◌≡◌, refl, sym, ap, subst, ◌∙◌, ◌⊎◌, inl, inr, true, false, Option, none, some, arith,
  ◌==◌, if◌then◌else◌, Bool-cases,
}

-- The ledger with other states of its tool calls.
abbrev pub retooled : Table ToolBlockState → AnthropicStreamLedger → AnthropicStreamLedger
retooled t l = record l { blocks = record l.blocks { tool_states = t } }

started_tool-facts :
    (i : ℕ) (tool_id name : String) (extra : Option Fields) (o : Option ToolBlockState)
    → ((started_tool i tool_id name extra o).started ≡ true)
      × ((started_tool i tool_id name extra o).block_index ≡ some i)
unfolding started_tool
started_tool-facts i tool_id name extra none = (refl, refl)
started_tool-facts i tool_id name extra (some s) = (refl, refl)

module _ (l : AnthropicStreamLedger) (c : Checker) (h : Live l c) where
  pub retooled-Live :
      (t : Table ToolBlockState)
      → AllOpen l t
      → no_repeats (indexes t) ≡ true
      → no_repeats (keys t) ≡ true
      → ((i : ℕ) → member i (indexes l.blocks.tool_states) ≡ true → member i (indexes t) ≡ true)
      → Live (retooled t l) c
  retooled-Live t tools once unique more = record {
    sync = record {
      same = h.sync.same;
      kept = h.sync.kept;
      stack_distinct = h.sync.stack_distinct;
      seen_below = h.sync.seen_below;
      count = h.sync.count;
      below = h.sync.below;
      named = h.sync.named;
      text_active = h.sync.text_active;
      thinking_active = h.sync.thinking_active;
      text_below = h.sync.text_below;
      thinking_below = h.sync.thinking_below;
    };
    tools = AllOpen-map l (retooled t l) t (λ i o. o) tools;
    once = once;
    unique = unique;
    covered = λ i s o. elim (h.covered i s o) [
      | inl x ↦ inl x
      | inr y ↦ elim y [ inl x ↦ inr (inl x) | inr m ↦ inr (inr (more i m)) ]
    ];
  }

  -- A change of one state that keeps whether it is started, and its block.
  pub on_tool-Live :
      (k : ℕ) (f : ToolBlockState → ToolBlockState)
      → ((s : ToolBlockState) → ((f s).started ≡ s.started) × ((f s).block_index ≡ s.block_index))
      → ((s : ToolBlockState)
          → Table.get k l.blocks.tool_states ≡ some s
          → s.started ≡ false
          → (f s).task_arg_buffer ≡ s.task_arg_buffer)
      → Live (record l { blocks = on_tool k f l.blocks }) c
  on_tool-Live k f same waits =
      retooled-Live (Table.modify k f l.blocks.tool_states)
        (AllOpen-modify l k f l.blocks.tool_states
          (λ s e o. record {
            block = λ on. let (i, b, p) = o.block (sym (same s).0 ∙ on) in (i, (same s).1 ∙ b, p);
            waits = λ off. waits s e (sym (same s).0 ∙ off) ∙ o.waits (sym (same s).0 ∙ off);
          })
          h.tools)
        (ap no_repeats (indexes-modify k f l.blocks.tool_states same) ∙ h.once)
        (ap no_repeats (keys-modify k f l.blocks.tool_states) ∙ h.unique)
        (λ i m. ap (member i) (indexes-modify k f l.blocks.tool_states same) ∙ m)

  pub new_tool-Live :
      (k : ℕ) (name : String)
      → Table.get k l.blocks.tool_states ≡ none
      → Live (retooled (Table.put k (new_tool_state name) l.blocks.tool_states) l) c
  new_tool-Live k name e =
      retooled-Live (Table.put k (new_tool_state name) l.blocks.tool_states)
        (AllOpen-put l k (new_tool_state name) l.blocks.tool_states h.tools
          (record { block = λ on. ground (arith, on); waits = λ off. refl }))
        (indexes-put k (new_tool_state name) l.blocks.tool_states refl h.once)
        (keys-put k (new_tool_state name) l.blocks.tool_states h.unique)
        (λ i m.
          ap (member i) (indexes-put_new k (new_tool_state name) l.blocks.tool_states e refl) ∙ m)

  pub emit_to-Stays :
      (s : ToolBlockState) (json : String)
      → IsOpenTool l s
      → s.started ≡ true
      → Stays l c (one (emit_to s json l))
  unfolding emit_to
  emit_to-Stays s json o on =
      let (i, b, p) = o.block on in
      Writes-Stays l c (one (emit_to s json l)) h (record {
        follows =
            subst (λ r. Follows l c (one (delta_block r (input_json_delta json) l))) (sym b)
              (input_delta-Follows l c h.sync i json p);
        keeps = delta-Keeps s.block_index (input_json_delta json) l;
      })

  next-absent : member l.blocks.next_index (indexes l.blocks.tool_states) ≡ false
  next-absent = elim (Bool-cases (member l.blocks.next_index (indexes l.blocks.tool_states))) [
    | inl m ↦ ground (
      arith,
      stack-absent l c h.sync,
      open_kind-member l.blocks.next_index (stored tool_use_block) l.open_stack l.content_blocks
          (indexes-open l l.blocks.next_index l.blocks.tool_states h.tools m),
    )
    | inr m ↦ m
  ]

  -- The new block is that of the tool call that starts.
  start-Covered :
      (k : ℕ) (state : ToolBlockState) (b : StreamBlockState) (blocks : StreamBlockLedger)
      → ((s : ToolBlockState) → Table.get k l.blocks.tool_states ≡ some s → s.started ≡ false)
      → state.started ≡ true
      → state.block_index ≡ some l.blocks.next_index
      → blocks.tool_states ≡ Table.put k state l.blocks.tool_states
      → blocks.text_started ≡ l.blocks.text_started
      → blocks.text_index ≡ l.blocks.text_index
      → blocks.thinking_started ≡ l.blocks.thinking_started
      → blocks.thinking_index ≡ l.blocks.thinking_index
      → Covered (opened_as l.blocks.next_index b blocks l)
  start-Covered k state b blocks off on e tools t1 t2 t3 t4 i s o =
      let grown : (l.blocks.next_index == i ≡ true)
            ⊎ (member i (indexes l.blocks.tool_states) ≡ true)
          → member i (indexes blocks.tool_states) ≡ true =
        λ m.
          ap (λ t. member i (indexes t)) tools
          ∙ member-indexes-start l.blocks.next_index i k state l.blocks.tool_states on e off m in
      elim (Bool-cases (l.blocks.next_index == i)) [
        | inl q ↦ inr (inr (grown (inl q)))
        | inr q ↦
            elim (h.covered i s (
              ground (
                arith,
                q,
                o,
                open_kind-opened l.blocks.next_index i b l.open_stack l.content_blocks,
              ))) [
                | inl x ↦ inl (t1 ∙ x.0, t2 ∙ x.1)
                | inr y ↦ elim y [
                  | inl x ↦ inr (inl (t3 ∙ x.0, t4 ∙ x.1))
                  | inr m ↦ inr (inr (grown (inr m)))
                ]
              ]
      ]

  pub start_tool-Stays :
      (k : ℕ) (tool_id name : String) (extra : Option Fields)
      → ((s : ToolBlockState) → Table.get k l.blocks.tool_states ≡ some s → s.started ≡ false)
      → Stays l c (one (start_tool_block k tool_id name extra l))
  unfolding start_tool_block start_block record_block_start allocate_index reserve_index
  start_tool-Stays k tool_id name extra off =
      let state : ToolBlockState =
        started_tool l.blocks.next_index tool_id name extra (Table.get k l.blocks.tool_states) in
      let block : StreamBlockState = record (new_state l.blocks.next_index tool_use_block) {
        tool_id = tool_id;
        name = name;
        extra_content = if has_fields extra then extra else none;
      } in
      record {
        follows = start_tool-Follows l c h.sync k tool_id name extra;
        tools =
            AllOpen-put (start_tool_block k tool_id name extra l).1 k state l.blocks.tool_states
              (AllOpen-map l (start_tool_block k tool_id name extra l).1 l.blocks.tool_states
                (start-KeepsOpen l c block (start_tool_block k tool_id name extra l).1.blocks
                  h.sync)
                h.tools)
              (record {
                block = λ on. (
                  l.blocks.next_index,
                  (started_tool-facts l.blocks.next_index tool_id name extra
                      (Table.get k l.blocks.tool_states)).1,
                  ground (
                    arith,
                    open_kind-opened l.blocks.next_index l.blocks.next_index block l.open_stack
                        l.content_blocks,
                  ),
                );
                waits = λ off. ground (
                  arith,
                  off,
                  (started_tool-facts l.blocks.next_index tool_id name extra
                      (Table.get k l.blocks.tool_states)).0,
                );
              });
        once =
            indexes-put k state l.blocks.tool_states
              (ground (
                arith,
                next-absent,
                (started_tool-facts l.blocks.next_index tool_id name extra
                    (Table.get k l.blocks.tool_states)).1,
              ))
              h.once;
        unique = keys-put k state l.blocks.tool_states h.unique;
        covered =
            start-Covered k state block (start_tool_block k tool_id name extra l).1.blocks off
              (started_tool-facts l.blocks.next_index tool_id name extra
                (Table.get k l.blocks.tool_states)).0
              (started_tool-facts l.blocks.next_index tool_id name extra
                (Table.get k l.blocks.tool_states)).1
              refl refl refl refl refl;
      }

pub start_tool-started :
    (k : ℕ) (tool_id name : String) (extra : Option Fields) (l : AnthropicStreamLedger)
    → map_option
        (λ s. s.started)
        (Table.get k (start_tool_block k tool_id name extra l).1.blocks.tool_states)
      ≡ some true
unfolding start_tool_block start_block record_block_start allocate_index reserve_index
start_tool-started k tool_id name extra l =
    let state : ToolBlockState =
      started_tool l.blocks.next_index tool_id name extra (Table.get k l.blocks.tool_states) in
    ground (
      arith,
      Table.get-put k k state l.blocks.tool_states,
      (started_tool-facts l.blocks.next_index tool_id name extra
          (Table.get k l.blocks.tool_states)).0,
    )

pub start_tool-keeps_started :
    (j k : ℕ) (tool_id name : String) (extra : Option Fields) (l : AnthropicStreamLedger)
    → is_started (Table.get j l.blocks.tool_states) ≡ true
    → is_started (Table.get j (start_tool_block k tool_id name extra l).1.blocks.tool_states) ≡ true
unfolding start_tool_block start_block record_block_start allocate_index reserve_index
start_tool-keeps_started j k tool_id name extra l on =
    let state : ToolBlockState =
      started_tool l.blocks.next_index tool_id name extra (Table.get k l.blocks.tool_states) in
    ground (
      arith,
      on,
      Table.get-put k j state l.blocks.tool_states,
      (started_tool-facts l.blocks.next_index tool_id name extra
          (Table.get k l.blocks.tool_states)).0,
    )
