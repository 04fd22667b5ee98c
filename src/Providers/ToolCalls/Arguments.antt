-- ===== src/Providers/ToolCalls/Arguments.antt =====
-- The arguments of a started tool call go to its open block.
use free_claude_code_my_pr_i.Core.Streaming.Keeping.{delta-Keeps}
use free_claude_code_my_pr_i.Core.Streaming.Tools.{on_tool-Live, emit_to-Stays}
use free_claude_code_my_pr_i.Core.Streaming.Block.{
  is_started, task_args, args_emitted, StreamBlockLedger, on_tool, buffer_task_args, ToolBlockState,
}
use free_claude_code_my_pr_i.Core.Streaming.Ledger.{AnthropicStreamLedger, input_json_delta, Event}
use free_claude_code_my_pr_i.Core.Streaming.Live.{
  then-Stays, Stays-Live, IsOpenTool-map, AllOpen-get, moved-Stays, finished-Stays, Stays,
  IsOpenTool, Live,
}
use free_claude_code_my_pr_i.Core.Streaming.Contract.{Checker}
use free_claude_code_my_pr_i.Core.Streaming.Emit.{is_nil, emit_to}
use free_claude_code_my_pr_i.Core.Streaming.Json.{object, Fields, Json}
use free_claude_code_my_pr_i.Providers.ToolCalls.{
  ◌>>>◌, Generates, state_of, with_blocks, aliases_of, restore_tool_argument_aliases, emits,
  emit_task_args, emit_tool_arg_delta, emit_aliased, ToolStream,
}
use free_claude_code_my_pr_i.Prelude.Dict.{Dict}
use free_claude_code_my_pr_i.Prelude.Table.{Table}
use free_claude_code_my_pr_i.Prelude.Table
use free_claude_code_my_pr_i.Prelude.{
  ℕ, String, ◌≡◌, refl, ap, ◌∙◌, inl, inr, true, Option, none, some, List, [], arith, str_eq, ◌==◌,
  Bool-cases, Option-cases, is_some, ◌⊕◌, is_empty, by_test, by_option,
}

abbrev pub buffer_at : ℕ → Option (Table String) → Option String
buffer_at i none = none
buffer_at i (some buffers) = Table.get i buffers

-- Only a started tool call has buffered arguments.
abbrev pub Marked : ToolStream → Type 0
Marked t = (i : ℕ) → is_some (buffer_at i t.alias_buffers) ≡ true → is_started (state_of i t) ≡ true

-- The invariant is kept, and which tool calls are started.
pub record Passes (t : ToolStream) (c : Checker) (r : List Event × ToolStream) : Type 0 where
  pub stays : Stays t.ledger c (r.0, r.1.ledger)
  pub started :
      (i : ℕ)
      → is_started (Table.get i r.1.ledger.blocks.tool_states)
        ≡ is_started (Table.get i t.ledger.blocks.tool_states)
  pub marked : Marked t → Marked r.1

pub nothing-Passes : (t : ToolStream) (c : Checker) → Live t.ledger c → Passes t c ([], t)
nothing-Passes t c h = record {
  stays = finished-Stays t.ledger c h;
  started = λ i. refl;
  marked = λ m. m;
}

pub emits-Passes :
    (t : ToolStream) (c : Checker) (s : ToolBlockState) (json : String)
    → Live t.ledger c
    → IsOpenTool t.ledger s
    → s.started ≡ true
    → Passes t c (emits s json t)
unfolding emit_to
emits-Passes t c s json h o on = record {
  stays = emit_to-Stays t.ledger c h s json o on;
  started = λ i.
      ap (λ states. is_started (Table.get i states))
        (delta-Keeps s.block_index (input_json_delta json) t.ledger).states;
  marked = λ m i b.
      ap (λ states. is_started (Table.get i states))
        (delta-Keeps s.block_index (input_json_delta json) t.ledger).states
      ∙ m i b;
}

pub then-Passes :
    (t : ToolStream) (c : Checker) (f g : Generates)
    → Passes t c (f t)
    → ((c' : Checker) → Live (f t).1.ledger c' → Passes (f t).1 c' (g (f t).1))
    → Passes t c ((f >>> g) t)
then-Passes t c f g h k =
    let after : Live (f t).1.ledger h.stays.follows.after =
      Stays-Live t.ledger c ((f t).0, (f t).1.ledger) h.stays in
    record {
      stays =
          then-Stays t.ledger c (λ _. ((f t).0, (f t).1.ledger))
            (λ _. ((g (f t).1).0, (g (f t).1).1.ledger)) h.stays (λ c' h'. (k c' h').stays);
      started = λ i. (k h.stays.follows.after after).started i ∙ h.started i;
      marked = λ m. (k h.stays.follows.after after).marked (h.marked m);
    }

-- From a state that differs in its ledger's tool calls and outside the ledger.
pub from-Passes :
    (t t' : ToolStream) (c : Checker) (r : List Event × ToolStream)
    → t.ledger.text_parts ≡ t'.ledger.text_parts
    → t.ledger.thinking_parts ≡ t'.ledger.thinking_parts
    → ((i : ℕ)
        → is_started (Table.get i t'.ledger.blocks.tool_states)
          ≡ is_started (Table.get i t.ledger.blocks.tool_states))
    → (Marked t → Marked t')
    → Passes t' c r
    → Passes t c r
from-Passes t t' c r e k same mark h = record {
  stays = moved-Stays t.ledger t'.ledger c (r.0, r.1.ledger) e k h.stays;
  started = λ i. h.started i ∙ same i;
  marked = λ m. h.marked (mark m);
}

pub modify-keeps_started :
    (i j : ℕ) (f : ToolBlockState → ToolBlockState) (states : Table ToolBlockState)
    → ((s : ToolBlockState) → (f s).started ≡ s.started)
    → is_started (Table.get j (Table.modify i f states)) ≡ is_started (Table.get j states)
modify-keeps_started i j f states same = elim (Option-cases (Table.get j states)) [
  | inl e ↦ ground (arith, e, Table.get-modify i j f states)
  | inr (s, e) ↦ ground (arith, e, same s, Table.get-modify i j f states)
]

-- The ledger with other blocks is as good, and the same tool calls are started in it.
pub record IsAsGood (l : AnthropicStreamLedger) (c : Checker) (b : StreamBlockLedger) : Type 0 where
  pub live : Live (record l { blocks = b }) c
  pub started :
      (i : ℕ)
      → is_started (Table.get i b.tool_states) ≡ is_started (Table.get i l.blocks.tool_states)

pub from_good :
    (t : ToolStream) (c : Checker) (b : StreamBlockLedger) (r : List Event × ToolStream)
    → IsAsGood t.ledger c b
    → (Live (with_blocks (λ _. b) t).ledger c → Passes (with_blocks (λ _. b) t) c r)
    → Passes t c r
from_good t c b r good k =
    from-Passes t (with_blocks (λ _. b) t) c r refl refl good.started
      (λ m i b. good.started i ∙ m i b) (k good.live)

put-Marked :
    (i : ℕ) (s : String) (buffers : Table String) (t : ToolStream)
    → t.alias_buffers ≡ some buffers
    → Marked t
    → is_started (state_of i t) ≡ true
    → Marked (record t { alias_buffers = some (Table.put i s buffers) })
put-Marked i s buffers t eq m on j b = elim (Bool-cases (i == j)) [
  | inl q ↦ ground (arith, q, on)
  | inr q ↦
      m j (ap (λ o. is_some (buffer_at j o)) eq ∙ ground (arith, b, q, Table.get-put i j s buffers))
]

pub pop-Marked :
    (i : ℕ) (buffers : Table String) (t : ToolStream)
    → t.alias_buffers ≡ some buffers
    → Marked t
    → Marked (record t { alias_buffers = some (Table.pop i buffers) })
pop-Marked i buffers t eq m j b =
    m j (ap (λ o. is_some (buffer_at j o)) eq ∙ ground (arith, b, Table.get-pop i j buffers))

module _ (loads : String → Option Json) (dumps : Json → String) where
  emit_aliased-Passes :
      (i : ℕ) (s : ToolBlockState) (args : String) (aliases : Dict String) (t : ToolStream)
      (c : Checker)
      → Live t.ledger c
      → IsOpenTool t.ledger s
      → s.started ≡ true
      → is_started (state_of i t) ≡ true
      → Passes t c (emit_aliased loads dumps i s args aliases t)
  unfolding emit_aliased
  emit_aliased-Passes i s args aliases t c h o on on' =
      by_option (Passes t c) t.alias_buffers _ _
        (λ _.
          by_option (Passes t c) (restore_tool_argument_aliases loads dumps args aliases) _ _
            (λ _. nothing-Passes t c h) (λ restored _. emits-Passes t c s restored h o on))
        (λ buffers eq.
          by_option (Passes t c)
            (restore_tool_argument_aliases loads dumps
              ((elim (Table.get i buffers) [ none ↦ "" | some b ↦ b ]) ⊕ args) aliases)
            _ _
            (λ _.
              let t' : ToolStream = record t {
                alias_buffers = some (
                    Table.put i ((elim (Table.get i buffers) [ none ↦ "" | some b ↦ b ]) ⊕ args)
                      buffers);
              } in
              from-Passes t t' c ([], t') refl refl (λ j. refl)
                (λ m j b.
                  put-Marked i ((elim (Table.get i buffers) [ none ↦ "" | some b ↦ b ]) ⊕ args)
                    buffers t eq m on' j b)
                (nothing-Passes t' c h))
            (λ restored _.
              let t' : ToolStream = record t { alias_buffers = some (Table.pop i buffers) } in
              from-Passes t t' c (emits s restored t') refl refl (λ j. refl)
                (λ m j b. pop-Marked i buffers t eq m j b) (emits-Passes t' c s restored h o on)))

  buffer_task_args-IsAsGood :
      (i : ℕ) (s : ToolBlockState) (args : String) (l : AnthropicStreamLedger) (c : Checker)
      → Live l c
      → Table.get i l.blocks.tool_states ≡ some s
      → s.started ≡ true
      → IsAsGood l c (buffer_task_args loads i args l.blocks).1
  unfolding buffer_task_args
  buffer_task_args-IsAsGood i s args l c h at on =
      let same : IsAsGood l c l.blocks = record { live = h; started = λ j. refl } in
      let emitted : IsAsGood l c (on_tool i (args_emitted loads) l.blocks) = record {
        live =
            on_tool-Live l c h i (args_emitted loads) (λ s'. (refl, refl))
              (λ s' e off. ground (arith, at, on, e, off));
        started =
            λ j. modify-keeps_started i j (args_emitted loads) l.blocks.tool_states (λ s'. refl);
      } in
      by_option (λ (r : Option Fields × StreamBlockLedger). IsAsGood l c r.1)
        (Table.get i l.blocks.tool_states) _ _ (λ e. same)
        (λ s' e.
          by_test (λ (r : Option Fields × StreamBlockLedger). IsAsGood l c r.1) s'.task_args_emitted
            _ _ (λ _. same)
            (λ _.
              by_option (λ (r : Option Fields × StreamBlockLedger). IsAsGood l c r.1)
                (task_args loads (s'.task_arg_buffer ⊕ args)) _ _
                (λ _. record {
                  live =
                      on_tool-Live l c h i
                        (λ t. record t { task_arg_buffer = s'.task_arg_buffer ⊕ args })
                        (λ s''. (refl, refl)) (λ s'' e' off. ground (arith, at, on, e', off));
                  started = λ j.
                      modify-keeps_started i j
                        (λ t. record t { task_arg_buffer = s'.task_arg_buffer ⊕ args })
                        l.blocks.tool_states (λ s''. refl);
                })
                (λ d _. emitted)))

  emit_task_args-Passes :
      (i : ℕ) (s : ToolBlockState) (args : String) (t : ToolStream) (c : Checker)
      → Live t.ledger c
      → Table.get i t.ledger.blocks.tool_states ≡ some s
      → s.started ≡ true
      → Passes t c (emit_task_args loads dumps i s args t)
  unfolding emit_task_args
  emit_task_args-Passes i s args t c h at on =
      let good : IsAsGood t.ledger c (buffer_task_args loads i args t.ledger.blocks).1 =
        buffer_task_args-IsAsGood i s args t.ledger c h at on in
      let r : Option Fields × StreamBlockLedger = buffer_task_args loads i args t.ledger.blocks in
      let t' : ToolStream = with_blocks (λ _. r.1) t in
      by_option (Passes t c) r.0 _ _
        (λ _. from_good t c r.1 ([], t') good (λ h'. nothing-Passes t' c h'))
        (λ d _. from_good t c r.1 (emits s (dumps (object d)) t') good (λ h'.
          emits-Passes t' c s (dumps (object d)) h'
            (IsOpenTool-map t.ledger t'.ledger s (λ j o. o)
              (AllOpen-get t.ledger i s t.ledger.blocks.tool_states h.tools at))
            on))

  pub emit_tool_arg_delta-Passes :
      (aliases : Dict (Dict String)) (i : ℕ) (args : String) (t : ToolStream) (c : Checker)
      → Live t.ledger c
      → is_started (Table.get i t.ledger.blocks.tool_states) ≡ true
      → Passes t c (emit_tool_arg_delta loads dumps aliases i args t)
  unfolding emit_tool_arg_delta
  emit_tool_arg_delta-Passes aliases i args t c h on =
      by_option (Passes t c) (Table.get i t.ledger.blocks.tool_states) _ _
        (λ _. nothing-Passes t c h)
        (λ s at.
          let on' : s.started ≡ true = ground (arith, on, at) in
          by_test (Passes t c) (is_empty args) _ _ (λ _. nothing-Passes t c h)
            (λ _.
              by_test (Passes t c) (str_eq s.name "Task") _ _
                (λ _. emit_task_args-Passes i s args t c h at on')
                (λ _.
                  by_test (Passes t c) (is_nil (aliases_of aliases s.name)) _ _
                    (λ _.
                      emits-Passes t c s args h
                        (AllOpen-get t.ledger i s t.ledger.blocks.tool_states h.tools at) on')
                    (λ _.
                      emit_aliased-Passes i s args (aliases_of aliases s.name) t c h
                        (AllOpen-get t.ledger i s t.ledger.blocks.tool_states h.tools at) on' on))))
