-- ===== src/Core/Streaming/Block.antt =====
-- core/anthropic/streaming/ledger.py: `StreamBlockLedger` with the states of blocks and tool calls.
-- `json.loads` and `json.dumps` are the arguments `loads` and `dumps`.
use free_claude_code_my_pr_i.Core.Streaming.Json.{
  normalize_task_run_in_background, object, as_object, field, Json, Fields,
}
use text.Mathlib.Text.{starts_with}
use free_claude_code_my_pr_i.Prelude.Table.{Table}
use free_claude_code_my_pr_i.Prelude.Table
use free_claude_code_my_pr_i.Prelude.{
  ℕ, ◌+◌, max, String, Bool, true, false, not, ◌&&◌, ◌||◌, Option, none, some, List, [], ◌∷◌,
  if◌then◌else◌, is_some, join, ◌⊕◌, is_empty,
}

pub record ToolBlockState : Type 0 where
  -- `none` for -1
  pub block_index : Option ℕ
  pub tool_id : String
  pub name : String
  pub extra_content : Option Fields
  pub started : Bool
  pub task_arg_buffer : String
  pub task_args_emitted : Bool
  pub pre_start_args : String

abbrev pub new_tool_state : String → ToolBlockState
new_tool_state name = record {
  block_index = none;
  tool_id = "";
  name = name;
  extra_content = none;
  started = false;
  task_arg_buffer = "";
  task_args_emitted = false;
  pre_start_args = "";
}

abbrev pub is_started : Option ToolBlockState → Bool
is_started none = false
is_started (some s) = s.started

-- The types of a block that the ledger knows, and any other one by its name.
pub data BlockType : Type 0 where
  text_block thinking_block tool_use_block redacted_thinking_block : BlockType
  other_block : String → BlockType

pub record StreamBlockState : Type 0 where
  pub index : ℕ
  pub block_type : BlockType
  pub opened : Bool
  pub tool_id : String
  pub name : String
  pub parts : List String
  pub extra_content : Option Fields

pub record StreamBlockLedger : Type 0 where
  pub next_index : ℕ
  -- `none` for -1
  pub thinking_index : Option ℕ
  pub text_index : Option ℕ
  pub thinking_started : Bool
  pub text_started : Bool
  pub tool_states : Table ToolBlockState

abbrev pub new_blocks : StreamBlockLedger
new_blocks = record {
  next_index = 0;
  thinking_index = none;
  text_index = none;
  thinking_started = false;
  text_started = false;
  tool_states = [];
}

abbrev pub content : StreamBlockState → String
content b = join b.parts

unfoldable pub allocate_index : StreamBlockLedger → ℕ × StreamBlockLedger
allocate_index b = (b.next_index, record b { next_index = b.next_index + 1 })

unfoldable pub reserve_index : ℕ → StreamBlockLedger → StreamBlockLedger
reserve_index index b = record b { next_index = max b.next_index (index + 1) }

unfoldable pub ensure_tool_state : ℕ → StreamBlockLedger → StreamBlockLedger
ensure_tool_state index b =
    if is_some (Table.get index b.tool_states)
    then b
    else record b { tool_states = Table.put index (new_tool_state "") b.tool_states }

-- A change of the tool state at `index`, which is there.
abbrev pub on_tool : ℕ → (ToolBlockState → ToolBlockState) → StreamBlockLedger → StreamBlockLedger
on_tool index f b = record b { tool_states = Table.modify index f b.tool_states }

unfoldable pub set_stream_tool_id : ℕ → Option String → StreamBlockLedger → StreamBlockLedger
set_stream_tool_id index none b = b
set_stream_tool_id index (some tool_id) b =
    if is_empty tool_id
    then b
    else on_tool index (λ s. record s { tool_id = tool_id }) (ensure_tool_state index b)

-- `if extra_content:`
abbrev pub has_fields : Option Fields → Bool
has_fields (some (field _ _ _)) = true
has_fields _ = false

unfoldable pub set_tool_extra_content : ℕ → Option Fields → StreamBlockLedger → StreamBlockLedger
set_tool_extra_content index extra b =
    if has_fields extra
    then on_tool index (λ s. record s { extra_content = extra }) (ensure_tool_state index b)
    else b

-- The name that results from `prev` when `name` arrives.
unfoldable pub merged_name : String → String → String
merged_name prev name =
    if is_empty prev || starts_with name prev
    then name
    else if not (starts_with prev name)
    then prev ⊕ name
    else prev

unfoldable pub register_tool_name : ℕ → String → StreamBlockLedger → StreamBlockLedger
register_tool_name index name b =
    if is_some (Table.get index b.tool_states)
    then on_tool index (λ s. record s { name = merged_name s.name name }) b
    else record b { tool_states = Table.put index (new_tool_state name) b.tool_states }

module _ (loads : String → Option Json) where
  -- A text that holds one JSON object, normalised.
  unfoldable pub task_args : String → Option Fields
  task_args buffer = elim (loads buffer) [
    | none ↦ none
    | some v ↦ elim (as_object v) [
      | none ↦ none
      | some d ↦ some (normalize_task_run_in_background d)
    ]
  ]

  abbrev pub args_emitted : ToolBlockState → ToolBlockState
  args_emitted s = record s { task_args_emitted = true; task_arg_buffer = "" }

  unfoldable pub buffer_task_args :
      ℕ → String → StreamBlockLedger → Option Fields × StreamBlockLedger
  buffer_task_args index args b = elim (Table.get index b.tool_states) [
    | none ↦ (none, b)
    | some s ↦
        let buffer = s.task_arg_buffer ⊕ args in
        if s.task_args_emitted then (none, b) else elim (task_args buffer) [
          | none ↦ (none, on_tool index (λ t. record t { task_arg_buffer = buffer }) b)
          | some d ↦ (some d, on_tool index args_emitted b)
        ]
  ]

  -- The text that is emitted for a buffer: `{}` unless it holds a JSON object.
  abbrev pub flushed_args : (Json → String) → String → String
  flushed_args dumps buffer = elim (task_args buffer) [ none ↦ "{}" | some d ↦ dumps (object d) ]

  -- Does the state hold arguments that were not emitted?
  abbrev pub is_pending : ToolBlockState → Bool
  is_pending s = not (is_empty s.task_arg_buffer) && not s.task_args_emitted

  unfoldable pub flush_states :
      (Json → String) → Table ToolBlockState → List (ℕ × String) × Table ToolBlockState
  flush_states dumps [] = ([], [])
  flush_states dumps ((i, s) ∷ states) =
      let rest = flush_states dumps states in
      if is_pending s
      then ((i, flushed_args dumps s.task_arg_buffer) ∷ rest.0, (i, args_emitted s) ∷ rest.1)
      else (rest.0, (i, s) ∷ rest.1)

  unfoldable pub flush_task_arg_buffers :
      (Json → String) → StreamBlockLedger → List (ℕ × String) × StreamBlockLedger
  flush_task_arg_buffers dumps b =
      let r = flush_states dumps b.tool_states in (r.0, record b { tool_states = r.1 })
