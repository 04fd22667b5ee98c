-- ===== src/Core/Streaming/Keeping.antt =====
-- What a call keeps: the open blocks of tool calls, and that every open block is in use.
use free_claude_code_my_pr_i.Core.Streaming.Stopping.{
  Clears, stopped_as, close_state-stopped, cleared-Clears,
}
use free_claude_code_my_pr_i.Core.Streaming.Follows.{stack-absent}
use free_claude_code_my_pr_i.Core.Streaming.Block.{
  redacted_thinking_block, other_block, ToolBlockState, thinking_block, text_block, tool_use_block,
  StreamBlockLedger, StreamBlockState, BlockType,
}
use free_claude_code_my_pr_i.Core.Streaming.Sync.{
  open_kind-stopped, open_kind-extended, open_kind-opened, open_kind-member, Sync, open_kind,
}
use free_claude_code_my_pr_i.Core.Streaming.Contract.{Storage, stored, Checker}
use free_claude_code_my_pr_i.Core.Streaming.Emit.{delta_block}
use free_claude_code_my_pr_i.Core.Streaming.Ledger.{
  clear_active_content_block, cleared, member, remove_open, input_json_delta, thinking_delta,
  text_delta, record_delta, add_part, opened_as, Delta, record_block_delta, record_block_stop,
  AnthropicStreamLedger,
}
use free_claude_code_my_pr_i.Prelude.Table.{Table}
use free_claude_code_my_pr_i.Prelude.Table
use free_claude_code_my_pr_i.Prelude.{
  ℕ, String, ◌≡◌, refl, sym, ap, subst, ◌∙◌, ◌⊎◌, inl, inr, Bool, true, false, Option, none, some,
  List, [], ◌∷◌, ◌++◌, arith, ◌==◌, Option-cases,
}

-- The block at `i` is an open block of a tool call.
abbrev pub IsOpenAt : AnthropicStreamLedger → ℕ → Type 0
IsOpenAt l i = open_kind l.open_stack l.content_blocks i ≡ some (stored tool_use_block)

abbrev pub add_index : Bool → Option ℕ → List ℕ → List ℕ
add_index true (some i) is = i ∷ is
add_index _ _ is = is

-- The blocks of the started tool calls.
unfoldable pub indexes : Table ToolBlockState → List ℕ
indexes [] = []
indexes ((_, s) ∷ t) = add_index s.started s.block_index (indexes t)

-- The block at `i` is the one that is being written, or that of a started tool call.
abbrev pub CoveredAt : AnthropicStreamLedger → ℕ → Type 0
CoveredAt l i =
    ((l.blocks.text_started ≡ true) × (l.blocks.text_index ≡ some i))
    ⊎ (((l.blocks.thinking_started ≡ true) × (l.blocks.thinking_index ≡ some i))
        ⊎ (member i (indexes l.blocks.tool_states) ≡ true))

-- Every open block is such a block.
abbrev pub Covered : AnthropicStreamLedger → Type 0
Covered l =
    (i : ℕ) (s : Storage) → open_kind l.open_stack l.content_blocks i ≡ some s → CoveredAt l i

pub record Keeps (l l' : AnthropicStreamLedger) : Type 0 where
  pub states : l'.blocks.tool_states ≡ l.blocks.tool_states
  pub opened : (i : ℕ) → IsOpenAt l i → IsOpenAt l' i
  pub covers : Covered l → Covered l'

pub Keeps-trans : (l l' l'' : AnthropicStreamLedger) → Keeps l l' → Keeps l' l'' → Keeps l l''
Keeps-trans l l' l'' h k = record {
  states = k.states ∙ h.states;
  opened = λ i o. k.opened i (h.opened i o);
  covers = λ f. k.covers (h.covers f);
}

pub start-KeepsOpen :
    (l : AnthropicStreamLedger) (c : Checker) (b : StreamBlockState) (blocks : StreamBlockLedger)
    → Sync l c
    → (i : ℕ) → IsOpenAt l i
    → IsOpenAt (opened_as l.blocks.next_index b blocks l) i
start-KeepsOpen l c b blocks h i o = ground (
  arith,
  stack-absent l c h,
  open_kind-opened l.blocks.next_index i b l.open_stack l.content_blocks,
  open_kind-member i (stored tool_use_block) l.open_stack l.content_blocks o,
)

extended-Keeps :
    (i : ℕ) (s : String) (ts hs : List String) (l : AnthropicStreamLedger)
    → Keeps l (record (add_part i s l) { text_parts = ts; thinking_parts = hs })
extended-Keeps i s ts hs l = record {
  states = refl;
  opened = λ j o. open_kind-extended i j s l.open_stack l.content_blocks ∙ o;
  covers = λ f j k o. f j k (sym (open_kind-extended i j s l.open_stack l.content_blocks) ∙ o);
}

pub Keeps-refl : (l : AnthropicStreamLedger) → Keeps l l
Keeps-refl l = record { states = refl; opened = λ i o. o; covers = λ f. f }

record_delta-Keeps :
    (i : ℕ) (t : BlockType) (d : Delta) (l : AnthropicStreamLedger) → Keeps l (record_delta i t d l)
unfolding record_delta
record_delta-Keeps i text_block (text_delta s) l =
    extended-Keeps i s (l.text_parts ++ s ∷ []) l.thinking_parts l
record_delta-Keeps i thinking_block (thinking_delta s) l =
    extended-Keeps i s l.text_parts (l.thinking_parts ++ s ∷ []) l
record_delta-Keeps i tool_use_block (input_json_delta s) l =
    extended-Keeps i s l.text_parts l.thinking_parts l
record_delta-Keeps i _ _ l = Keeps-refl l

pub delta-Keeps :
    (index : Option ℕ) (d : Delta) (l : AnthropicStreamLedger) → Keeps l (delta_block index d l).1
unfolding delta_block record_block_delta
delta-Keeps none d l = record { states = refl; opened = λ i o. o; covers = λ f. f }
delta-Keeps (some j) d l = elim (Option-cases (Table.get j l.content_blocks)) [
  | inl e ↦ rw (e, record_block_delta) (Keeps-refl l)
  | inr (b, e) ↦ rw (e, record_block_delta) (record_delta-Keeps j b.block_type d l)
]

cleared-keeps_text :
    (t : BlockType) (i k : ℕ) (b : StreamBlockLedger)
    → b.text_started ≡ true
    → b.text_index ≡ some k
    → (i == k) ≡ false
    → (cleared t i b).text_started ≡ true
unfolding cleared
cleared-keeps_text text_block i k b on e d = ground (arith, on, e, d)
cleared-keeps_text thinking_block i k b on e d = ground (arith, on)
cleared-keeps_text tool_use_block i k b on e d = on
cleared-keeps_text redacted_thinking_block i k b on e d = on
cleared-keeps_text (other_block s) i k b on e d = on

cleared-keeps_thinking :
    (t : BlockType) (i k : ℕ) (b : StreamBlockLedger)
    → b.thinking_started ≡ true
    → b.thinking_index ≡ some k
    → (i == k) ≡ false
    → (cleared t i b).thinking_started ≡ true
unfolding cleared
cleared-keeps_thinking text_block i k b on e d = ground (arith, on)
cleared-keeps_thinking thinking_block i k b on e d = ground (arith, on, e, d)
cleared-keeps_thinking tool_use_block i k b on e d = on
cleared-keeps_thinking redacted_thinking_block i k b on e d = on
cleared-keeps_thinking (other_block s) i k b on e d = on

module _ (l : AnthropicStreamLedger) (c : Checker) (h : Sync l c) (j : ℕ) (t : BlockType)
    (o : open_kind l.open_stack l.content_blocks j ≡ some (stored t)) where
  stopped-Covered :
      (b : StreamBlockState)
      → b.index ≡ j
      → ((i : ℕ) (s : Storage)
          → (j == i) ≡ false
          → open_kind l.open_stack l.content_blocks i ≡ some s
          → CoveredAt l i)
      → Covered (stopped_as l c h j b (remove_open j l.open_stack))
  stopped-Covered b named f i s open_ =
      let cl : Clears b.block_type b.index l.blocks (clear_active_content_block b l.blocks) =
        cleared-Clears b.block_type b.index l.blocks in
      let e = open_kind-stopped j i l.open_stack l.content_blocks h.stack_distinct in
      let d : (j == i) ≡ false = ground (arith, e, open_) in
      let d' : (b.index == i) ≡ false = ground (arith, named, d) in
      elim (f i s d (ground (arith, e, open_))) [
        | inl x ↦ inl (
          cleared-keeps_text b.block_type b.index i l.blocks x.0 x.1 d',
          (cleared-Clears b.block_type b.index l.blocks).text_index ∙ x.1,
        )
        | inr y ↦ elim y [
          | inl x ↦ inr (
              inl (
                cleared-keeps_thinking b.block_type b.index i l.blocks x.0 x.1 d',
                (cleared-Clears b.block_type b.index l.blocks).thinking_index ∙ x.1,
              ))
          | inr m ↦ inr (
              inr (
                ap (λ ts. member i (indexes ts))
                  (cleared-Clears b.block_type b.index l.blocks).tool_states
                ∙ m))
        ]
      ]

  -- The block at `j` is closed: the other blocks stay as they are.
  pub stop-covers :
      ((i : ℕ) (s : Storage)
        → (j == i) ≡ false
        → open_kind l.open_stack l.content_blocks i ≡ some s
        → CoveredAt l i)
      → Covered (record_block_stop (some j) l)
  unfolding record_block_stop
  stop-covers f =
      let (m, (b, at, k)) = open_kind-member j (stored t) l.open_stack l.content_blocks o in
      subst Covered (sym (close_state-stopped l c h j b (remove_open j l.open_stack) at))
        (stopped-Covered b (h.named j b at) f)

  pub stop-others :
      (i : ℕ) → (j == i) ≡ false → IsOpenAt l i → IsOpenAt (record_block_stop (some j) l) i
  unfolding record_block_stop
  stop-others i d p =
      let (m, (b, at, k)) = open_kind-member j (stored t) l.open_stack l.content_blocks o in
      subst (λ l'. IsOpenAt l' i)
        (sym (close_state-stopped l c h j b (remove_open j l.open_stack) at))
        (ground (arith, p, d, open_kind-stopped j i l.open_stack l.content_blocks h.stack_distinct))

  -- What is open afterwards was open before.
  pub stop-before :
      (i : ℕ) (s : Storage)
      → open_kind
          (record_block_stop (some j) l).open_stack
          (record_block_stop (some j) l).content_blocks
          i
        ≡ some s
      → (open_kind l.open_stack l.content_blocks i ≡ some s) × ((j == i) ≡ false)
  unfolding record_block_stop
  stop-before i s p =
      let (m, (b, at, k)) = open_kind-member j (stored t) l.open_stack l.content_blocks o in
      let p' : open_kind (remove_open j l.open_stack)
            (Table.modify j (λ b'. record b' { opened = false }) l.content_blocks) i
          ≡ some s =
        sym (
          ap (λ l'. open_kind l'.open_stack l'.content_blocks i)
            (close_state-stopped l c h j b (remove_open j l.open_stack) at))
        ∙ p in
      ground (arith, p', open_kind-stopped j i l.open_stack l.content_blocks h.stack_distinct)

  pub stop-states : (record_block_stop (some j) l).blocks.tool_states ≡ l.blocks.tool_states
  unfolding record_block_stop
  stop-states =
      let (m, (b, at, k)) = open_kind-member j (stored t) l.open_stack l.content_blocks o in
      ap (λ l'. l'.blocks.tool_states)
        (close_state-stopped l c h j b (remove_open j l.open_stack) at)
      ∙ (cleared-Clears b.block_type b.index l.blocks).tool_states
