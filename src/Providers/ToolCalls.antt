-- ===== src/Providers/ToolCalls.antt =====
-- providers/openai_chat/tool_calls.py: tool-call deltas of an OpenAI stream become blocks of the
-- Anthropic stream. The calls of the recorder are kept in order; `loads`, `dumps` and the fresh id
-- (`tool_` and a uuid4) are arguments.
pub mod Arguments
pub mod Noting
pub mod Processing
pub mod Flushing
pub mod Tasks
use free_claude_code_my_pr_i.Core.Streaming.Emit.{
  stop_block, delta_block, start_block, ◌>>◌, close_content_blocks, is_nil, start_tool_block,
  emit_to, yields_if,
}
use free_claude_code_my_pr_i.Core.Streaming.Json.{
  normalize_task_run_in_background, object, restore_value, as_object, Json, Fields,
}
use free_claude_code_my_pr_i.Core.Streaming.Ledger.{
  input_json_delta, tool_use_content, AnthropicStreamLedger, Event, Yields,
}
use free_claude_code_my_pr_i.Core.Streaming.Block.{
  allocate_index, is_started, register_tool_name, ensure_tool_state, set_tool_extra_content,
  on_tool, set_stream_tool_id, has_fields, buffer_task_args, flush_task_arg_buffers, ToolBlockState,
  StreamBlockLedger,
}
use free_claude_code_my_pr_i.Prelude.Dict.{map_option, Dict}
use free_claude_code_my_pr_i.Prelude.Dict
use free_claude_code_my_pr_i.Prelude.Table.{Table}
use free_claude_code_my_pr_i.Prelude.Table
use free_claude_code_my_pr_i.Prelude.{
  ℕ, zero, suc, ◌+◌, ◌-◌, ◌*◌, ◌/◌, ◌%◌, ◌^◌, ◌≤◌, ◌<◌, min, max, String, ◌≡◌, refl, sym, ap, subst,
  ◌∙◌, ◌≢◌, ◌↔◌, ◌⊎◌, inl, inr, Bool, true, false, not, ◌&&◌, ◌||◌, false≢true, Option, none, some,
  List, [], ◌∷◌, ◌++◌, map, arith, str_eq, eq_iff, ltb, leb, ◌==◌, if◌then◌else◌, ltb→lt, leb→le,
  ==_iff, Bool-cases, Option-cases, is_some, length, length-append, All, All-append, All-map,
  list_cases, join, join-append, join-last, ◌⊕◌, is_empty, strip, strip-empty, by_test, by_option,
}

-- `tc.get("index", 0)`
pub data RawIndex : Type 0 where
  index_at : ℕ → RawIndex
  below_zero no_int : RawIndex

pub record ToolCallDelta : Type 0 where
  pub index : RawIndex
  pub id : Option String
  pub name : Option String
  pub arguments : String
  pub extra_content : Option Fields

-- What a request keeps: the ledger, the buffers of aliased arguments, if it has any, and the
-- recorded extra contents.
pub record ToolStream : Type 0 where
  pub ledger : AnthropicStreamLedger
  pub alias_buffers : Option (Table String)
  pub recorded : List (String × Fields)

abbrev pub Generates : Type 0
Generates = ToolStream → List Event × ToolStream

-- A generator of the ledger, on the whole state.
abbrev pub on_ledger : Yields → Generates
on_ledger f t = ((f t.ledger).0, record t { ledger = (f t.ledger).1 })

abbrev pub nothing : Generates
nothing t = ([], t)

-- One generator after another.
infixr 20 ◌>>>◌
abbrev pub ◌>>>◌ : Generates → Generates → Generates
(f >>> g) t = ((f t).0 ++ (g (f t).1).0, (g (f t).1).1)

abbrev pub with_blocks : (StreamBlockLedger → StreamBlockLedger) → ToolStream → ToolStream
with_blocks f t = record t { ledger = record t.ledger { blocks = f t.ledger.blocks } }

-- One delta for the state `s` of a tool call.
abbrev pub emits : ToolBlockState → String → Generates
emits s json = on_ledger (yields_if true (emit_to s json))

unfoldable pub record_extra_content : String → Option Fields → ToolStream → ToolStream
record_extra_content tool_id (some d) t = record t { recorded = t.recorded ++ (tool_id, d) ∷ [] }
record_extra_content tool_id none t = t

-- t.pop(i, None), for the buffers
abbrev pub drop_buffer : ℕ → ToolStream → ToolStream
drop_buffer i t = record t { alias_buffers = map_option (Table.pop i) t.alias_buffers }

pub record HeuristicToolUse : Type 0 where
  pub id : String
  pub name : String
  pub input : Json

-- The input of a tool call; that of a Task does not run in the background.
unfoldable pub task_input : HeuristicToolUse → Json
task_input tool_use = elim (as_object tool_use.input) [
  | none ↦ tool_use.input
  | some d ↦
      if str_eq tool_use.name "Task"
      then object (normalize_task_run_in_background d)
      else tool_use.input
]

-- `tool_argument_aliases.get(name, {})`
abbrev pub aliases_of : Dict (Dict String) → String → Dict String
aliases_of aliases name = elim (Dict.get name aliases) [ none ↦ [] | some d ↦ d ]

abbrev pub state_of : ℕ → ToolStream → Option ToolBlockState
state_of i t = Table.get i t.ledger.blocks.tool_states

-- The index of a delta: a negative one stands for a new tool call.
unfoldable pub call_index : ToolCallDelta → ToolStream → ℕ
call_index tc t = elim tc.index [
  | index_at i ↦ i
  | below_zero ↦ length t.ledger.blocks.tool_states
  | no_int ↦ 0
]

abbrev pub given_extra : ToolCallDelta → Option Fields
given_extra tc = if has_fields tc.extra_content then tc.extra_content else none

-- The id, the extra content and the name of a delta are noted.
unfoldable pub note_call : ToolCallDelta → ℕ → StreamBlockLedger → StreamBlockLedger
note_call tc i b =
    let b1 = set_stream_tool_id i tc.id b in
    let b2 = set_tool_extra_content i (given_extra tc) b1 in
    elim tc.name [ none ↦ b2 | some name ↦ register_tool_name i name b2 ]

abbrev pub resolved_name : Option ToolBlockState → String
resolved_name none = ""
resolved_name (some s) = s.name

abbrev pub start_extra : ToolCallDelta → Option ToolBlockState → Option Fields
start_extra tc none = given_extra tc
start_extra tc (some s) = s.extra_content

abbrev pub record_given : ToolCallDelta → Option ToolBlockState → ToolStream → ToolStream
record_given tc none t = t
record_given tc (some s) t =
    if is_empty s.tool_id then t else record_extra_content s.tool_id (given_extra tc) t

module _ (loads : String → Option Json) (dumps : Json → String) where
  unfoldable pub restore_tool_argument_aliases : String → Dict String → Option String
  restore_tool_argument_aliases argument_json aliases = elim (loads argument_json) [
    | none ↦ none
    | some v ↦ elim (as_object v) [
      | none ↦ some argument_json
      | some d ↦ some (dumps (restore_value aliases (object d)))
    ]
  ]

  -- Arguments under aliases: they are emitted when what came so far is a JSON value.
  unfoldable pub emit_aliased : ℕ → ToolBlockState → String → Dict String → Generates
  emit_aliased i s args aliases t = elim t.alias_buffers [
    | none ↦ elim (restore_tool_argument_aliases args aliases) [
      | none ↦ ([], t)
      | some restored ↦ emits s restored t
    ]
    | some buffers ↦
        let buffered = (elim (Table.get i buffers) [ none ↦ "" | some b ↦ b ]) ⊕ args in
        elim (restore_tool_argument_aliases buffered aliases) [
          | none ↦ ([], record t { alias_buffers = some (Table.put i buffered buffers) })
          | some restored ↦
              emits s restored (record t { alias_buffers = some (Table.pop i buffers) })
        ]
  ]

  unfoldable pub emit_task_args : ℕ → ToolBlockState → String → Generates
  emit_task_args i s args t =
      let r = buffer_task_args loads i args t.ledger.blocks in
      let t' : ToolStream = with_blocks (λ _. r.1) t in
      elim r.0 [ none ↦ ([], t') | some d ↦ emits s (dumps (object d)) t' ]

  unfoldable pub emit_tool_arg_delta : Dict (Dict String) → ℕ → String → Generates
  emit_tool_arg_delta aliases i args t = elim (Table.get i t.ledger.blocks.tool_states) [
    | none ↦ ([], t)
    | some s ↦
        if is_empty args
        then ([], t)
        else if str_eq s.name "Task"
        then emit_task_args i s args t
        else if is_nil (aliases_of aliases s.name)
        then emits s args t
        else emit_aliased i s args (aliases_of aliases s.name) t
  ]

  module _ (fresh_id : String) (aliases : Dict (Dict String)) where
    unfoldable pub resolved_id : ToolCallDelta → Option ToolBlockState → String
    resolved_id tc none = elim tc.id [
      | none ↦ fresh_id
      | some id ↦ if is_empty id then fresh_id else id
    ]
    resolved_id tc (some s) =
        if is_empty s.tool_id
        then elim tc.id [ none ↦ fresh_id | some id ↦ if is_empty id then fresh_id else id ]
        else s.tool_id

    -- The arguments that came before the block was started.
    unfoldable pub emit_pre_start : ℕ → Generates
    emit_pre_start i t = elim (state_of i t) [
      | none ↦ ([], t)
      | some s ↦
          if is_empty s.pre_start_args
          then ([], t)
          else emit_tool_arg_delta aliases i s.pre_start_args
              (with_blocks (on_tool i (λ s'. record s' { pre_start_args = "" })) t)
    ]

    -- The block of the tool call starts, and the arguments that waited for it follow.
    unfoldable pub start_call : ToolCallDelta → ℕ → Option ToolBlockState → Generates
    start_call tc i state t =
        let tool_id = resolved_id tc state in
        let extra = start_extra tc state in
        let t' = if has_fields extra then record_extra_content tool_id extra t else t in
        (on_ledger (yields_if true (start_tool_block i tool_id (strip (resolved_name state)) extra))
            >>> emit_pre_start i)
          t'

    -- The arguments of the delta; they wait while the tool call has no name.
    unfoldable pub emit_arguments : ToolCallDelta → ℕ → String → Generates
    emit_arguments tc i name t =
        if is_empty tc.arguments
        then ([], t)
        else if is_started (state_of i t)
        then emit_tool_arg_delta aliases i tc.arguments t
        else if is_empty (strip name)
        then (
          [],
          with_blocks
              (λ b.
                on_tool i (λ s. record s { pre_start_args = s.pre_start_args ⊕ tc.arguments })
                  (ensure_tool_state i b))
              t,
        )
        else emit_tool_arg_delta aliases i tc.arguments (with_blocks (ensure_tool_state i) t)

    unfoldable pub process_tool_call : ToolCallDelta → Generates
    process_tool_call tc t =
        let i = call_index tc t in
        let t1 : ToolStream = with_blocks (note_call tc i) t in
        let state = state_of i t1 in
        let name = resolved_name state in
        let starts = not (is_started state) && not (is_empty (strip name)) in
        ((λ u. if starts then start_call tc i state u else ([], u))
            >>> (λ u. emit_arguments tc i name (record_given tc (state_of i u) u)))
          t1

  -- Emits what the buffers of Task arguments hold.
  unfoldable pub emit_flushed : List (ℕ × String) → Generates
  emit_flushed [] t = ([], t)
  emit_flushed ((i, out) ∷ rest) t = elim (Table.get i t.ledger.blocks.tool_states) [
    | none ↦ emit_flushed rest t
    | some s ↦ (emits s out >>> emit_flushed rest) t
  ]

  unfoldable pub flush_task_args : Generates
  flush_task_args t =
      let r = flush_task_arg_buffers loads dumps t.ledger.blocks in
      emit_flushed r.0 (with_blocks (λ _. r.1) t)

  abbrev pub dropped : ℕ → List Event × ToolStream → List Event × ToolStream
  dropped i r = (r.0, drop_buffer i r.1)

  -- What a buffer of aliased arguments holds, with the names restored if it is a JSON value.
  abbrev pub restored_args : String → Dict String → String
  restored_args buffered aliases = elim (restore_tool_argument_aliases buffered aliases) [
    | none ↦ buffered
    | some restored ↦ restored
  ]

  unfoldable pub flush_entry : Dict (Dict String) → ℕ → String → Generates
  flush_entry aliases i buffered t =
      if is_empty buffered
      then ([], drop_buffer i t)
      else elim (Table.get i t.ledger.blocks.tool_states) [
        | none ↦ ([], t)
        | some s ↦
            if str_eq s.name "Task" || is_nil (aliases_of aliases s.name)
            then ([], t)
            else dropped i (emits s (restored_args buffered (aliases_of aliases s.name)) t)
      ]

  -- Emits what is left in the buffers of aliased arguments, for the entries of a list.
  unfoldable pub flush_aliased : Dict (Dict String) → Table String → Generates
  flush_aliased aliases [] t = ([], t)
  flush_aliased aliases ((i, buffered) ∷ rest) t =
      (flush_entry aliases i buffered >>> flush_aliased aliases rest) t

  unfoldable pub flush_tool_argument_alias_buffers : Dict (Dict String) → Generates
  flush_tool_argument_alias_buffers aliases t = elim t.alias_buffers [
    | none ↦ ([], t)
    | some buffers ↦ flush_aliased aliases buffers t
  ]

  -- A tool call that was found in the text of the answer.
  unfoldable pub iter_heuristic_tool_use : HeuristicToolUse → Yields
  iter_heuristic_tool_use tool_use = close_content_blocks >> (λ l.
      let r = allocate_index l.blocks in
      (yields_if true (start_block r.0 (tool_use_content tool_use.id tool_use.name none))
          >> yields_if true
              (delta_block (some r.0) (input_json_delta (dumps (task_input tool_use))))
          >> yields_if true (stop_block (some r.0)))
        (record l { blocks = r.1 }))
