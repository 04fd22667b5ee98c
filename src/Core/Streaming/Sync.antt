-- ===== src/Core/Streaming/Sync.antt =====
-- When a ledger and the checker of the stream contract agree on the open blocks.
use free_claude_code_my_pr_i.Prelude.Dict.{map_option}
use free_claude_code_my_pr_i.Core.Streaming.Stack.{member-remove_open, no_repeats}
use free_claude_code_my_pr_i.Core.Streaming.Ledger.{remove_open, member, AnthropicStreamLedger}
use free_claude_code_my_pr_i.Core.Streaming.Block.{
  thinking_block, text_block, BlockType, StreamBlockState,
}
use free_claude_code_my_pr_i.Core.Streaming.Contract.{Checker, stored, Storage}
use free_claude_code_my_pr_i.Prelude.Table.{Table}
use free_claude_code_my_pr_i.Prelude.Table
use free_claude_code_my_pr_i.Prelude.{
  ℕ, ◌<◌, String, ◌≡◌, inl, inr, Bool, true, false, Option, none, some, List, [], ◌∷◌, ◌++◌, arith,
  ◌==◌, if◌then◌else◌, Bool-cases, Option-cases, is_some, length,
}

abbrev pub stored_type : StreamBlockState → Storage
stored_type b = stored b.block_type

-- What the ledger knows of an open block.
unfoldable pub open_kind : List ℕ → Table StreamBlockState → ℕ → Option Storage
open_kind stack blocks i =
    if member i stack then map_option stored_type (Table.get i blocks) else none

-- A started block of a type is the open block that its index names.
abbrev pub IsActive : Bool → Option ℕ → BlockType → AnthropicStreamLedger → Type 0
IsActive started index t l =
    started ≡ true
    → (i : ℕ) × (index ≡ some i) × (open_kind l.open_stack l.content_blocks i ≡ some (stored t))

abbrev pub IsBelow : Option ℕ → ℕ → Type 0
IsBelow index n = (i : ℕ) → index ≡ some i → i < n

pub record Sync (l : AnthropicStreamLedger) (c : Checker) : Type 0 where
  pub same : (i : ℕ) → Table.get i c.open_blocks ≡ open_kind l.open_stack l.content_blocks i
  pub kept : (i : ℕ) → member i l.open_stack ≡ true → is_some (Table.get i l.content_blocks) ≡ true
  pub stack_distinct : no_repeats l.open_stack ≡ true
  pub seen_below : (i : ℕ) → member i c.seen_blocks ≡ true → i < l.blocks.next_index
  pub count : length c.seen_blocks ≡ l.blocks.next_index
  pub below : (i : ℕ) → is_some (Table.get i l.content_blocks) ≡ true → i < l.blocks.next_index
  pub named : (i : ℕ) (b : StreamBlockState) → Table.get i l.content_blocks ≡ some b → b.index ≡ i
  pub text_active : IsActive l.blocks.text_started l.blocks.text_index text_block l
  pub thinking_active : IsActive l.blocks.thinking_started l.blocks.thinking_index thinking_block l
  pub text_below : IsBelow l.blocks.text_index l.blocks.next_index
  pub thinking_below : IsBelow l.blocks.thinking_index l.blocks.next_index

pub open_kind-opened :
    (i j : ℕ) (b : StreamBlockState) (stack : List ℕ) (blocks : Table StreamBlockState)
    → open_kind (i ∷ stack) (Table.put i b blocks) j
      ≡ (if i == j then some (stored_type b) else open_kind stack blocks j)
unfolding open_kind member
open_kind-opened i j b stack blocks = ground (arith, Table.get-put i j b blocks)

pub open_kind-stopped :
    (i j : ℕ) (stack : List ℕ) (blocks : Table StreamBlockState)
    → no_repeats stack ≡ true
    → open_kind (remove_open i stack) (Table.modify i (λ b. record b { opened = false }) blocks) j
      ≡ (if i == j then none else open_kind stack blocks j)
unfolding open_kind
open_kind-stopped i j stack blocks h = ground (
  arith,
  member-remove_open i j stack h,
  Table.get-modify i j (λ b. record b { opened = false }) blocks,
)

pub open_kind-extended :
    (i j : ℕ) (s : String) (stack : List ℕ) (blocks : Table StreamBlockState)
    → open_kind stack (Table.modify i (λ b. record b { parts = b.parts ++ s ∷ [] }) blocks) j
      ≡ open_kind stack blocks j
unfolding open_kind
open_kind-extended i j s stack blocks = elim (Option-cases (Table.get j blocks)) [
  | inl e ↦
      ground (arith, Table.get-modify i j (λ b. record b { parts = b.parts ++ s ∷ [] }) blocks)
  | inr (b, e) ↦
      ground (arith, Table.get-modify i j (λ b. record b { parts = b.parts ++ s ∷ [] }) blocks)
]

pub open_kind-member :
    (i : ℕ) (t : Storage) (stack : List ℕ) (blocks : Table StreamBlockState)
    → open_kind stack blocks i ≡ some t
    → (member i stack ≡ true)
      × ((b : StreamBlockState) × (Table.get i blocks ≡ some b) × (stored_type b ≡ t))
unfolding open_kind
open_kind-member i t stack blocks h = elim (Option-cases (Table.get i blocks)) [
  | inl e ↦ ground arith
  | inr (b, e) ↦ elim (Bool-cases (member i stack)) [
    | inl m ↦ (m, (b, e, ground arith))
    | inr m ↦ ground arith
  ]
]
