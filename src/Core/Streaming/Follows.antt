-- ===== src/Core/Streaming/Follows.antt =====
-- Each event that a ledger emits is one that the contract accepts, and the ledger keeps its text.
use free_claude_code_my_pr_i.Core.Streaming.Stack.{no_repeats}
use free_claude_code_my_pr_i.Core.Streaming.Emit.{accumulated_reasoning, accumulated_text}
use free_claude_code_my_pr_i.Core.Streaming.Sync.{
  open_kind-member, open_kind-opened, IsActive, IsBelow, open_kind, Sync,
}
use free_claude_code_my_pr_i.Core.Streaming.Contract.{
  storage, thinking_content_of, stored, text_content_of, is_allowed, check_events, Storage,
  check_event, Checker,
}
use free_claude_code_my_pr_i.Core.Streaming.Ledger.{
  content_block_start, opened_as, type_of, ContentBlock, member, Event, AnthropicStreamLedger,
}
use free_claude_code_my_pr_i.Core.Streaming.Block.{
  thinking_block, text_block, StreamBlockLedger, StreamBlockState, BlockType,
}
use free_claude_code_my_pr_i.Prelude.Table.{Table}
use free_claude_code_my_pr_i.Prelude.Table
use free_claude_code_my_pr_i.Prelude.{
  ℕ, suc, ◌≡◌, sym, ap, ◌∙◌, ◌⊎◌, inl, inr, Bool, true, false, Option, none, some, List, ◌∷◌, arith,
  ◌==◌, if◌then◌else◌, Bool-cases, ◌⊕◌,
}

pub record Follows (l : AnthropicStreamLedger) (c : Checker)
    (r : List Event × AnthropicStreamLedger) : Type 0 where
  pub after : Checker
  pub checks : check_events false r.0 c ≡ some after
  pub sync : Sync r.1 after
  pub text : accumulated_text r.1 ≡ accumulated_text l ⊕ text_content_of r.0
  pub reasoning : accumulated_reasoning r.1 ≡ accumulated_reasoning l ⊕ thinking_content_of r.0

-- Either the active block of a type stays, or it is the new one.
abbrev pub IsActivated : ℕ → BlockType → BlockType → Bool → Option ℕ → Bool → Option ℕ → Type 0
IsActivated i new t started index started' index' =
    ((started' ≡ started) × (index' ≡ index)) ⊎ ((index' ≡ some i) × (new ≡ t))

module _ (l : AnthropicStreamLedger) (c : Checker) (h : Sync l c) where
  pub stack-absent : member l.blocks.next_index l.open_stack ≡ false
  stack-absent = elim (Bool-cases (member l.blocks.next_index l.open_stack)) [
    | inl e ↦ ground (arith, h.below l.blocks.next_index (h.kept l.blocks.next_index e))
    | inr e ↦ e
  ]

  seen-absent : member l.blocks.next_index c.seen_blocks ≡ false
  seen-absent = elim (Bool-cases (member l.blocks.next_index c.seen_blocks)) [
    | inl e ↦ ground (arith, h.seen_below l.blocks.next_index e)
    | inr e ↦ e
  ]

  checker-absent : Table.get l.blocks.next_index c.open_blocks ≡ none
  unfolding open_kind
  checker-absent = h.same l.blocks.next_index ∙ ground (arith, stack-absent)

  -- A block that is started at the next index.
  abbrev pub opened_checker : Storage → Checker
  opened_checker s = record {
    open_blocks = Table.put l.blocks.next_index s c.open_blocks;
    seen_blocks = l.blocks.next_index ∷ c.seen_blocks;
  }

  pub check_event-start :
      (block : ContentBlock)
      → is_allowed (type_of block) ≡ true
      → check_event false (content_block_start l.blocks.next_index block) c
        ≡ some (opened_checker (storage block))
  unfolding check_event
  check_event-start block a = ground (arith, checker-absent, seen-absent)

  activated :
      (b : StreamBlockState) (t : BlockType) (started started' : Bool) (index index' : Option ℕ)
      (blocks : StreamBlockLedger)
      → IsActivated l.blocks.next_index b.block_type t started index started' index'
      → IsActive started index t l
      → IsActive started' index' t (opened_as l.blocks.next_index b blocks l)
  activated b t started started' index index' blocks a active on = elim a [
    | inl a' ↦
        let (i, f, o) = active (sym a'.0 ∙ on) in
        let e : open_kind (l.blocks.next_index ∷ l.open_stack)
              (Table.put l.blocks.next_index b l.content_blocks) i
            ≡ some (stored t) =
          ground (
            arith,
            stack-absent,
            open_kind-opened l.blocks.next_index i b l.open_stack l.content_blocks,
            open_kind-member i (stored t) l.open_stack l.content_blocks o,
          ) in
        (i, a'.1 ∙ f, e)
    | inr a' ↦ (
      l.blocks.next_index,
      a'.0,
      ground (
        arith,
        open_kind-opened l.blocks.next_index l.blocks.next_index b l.open_stack l.content_blocks,
      ),
    )
  ]

  activated-IsBelow :
      (new t : BlockType) (started started' : Bool) (index index' : Option ℕ)
      → IsActivated l.blocks.next_index new t started index started' index'
      → IsBelow index l.blocks.next_index
      → IsBelow index' (suc l.blocks.next_index)
  activated-IsBelow new t started started' index index' a below i e = elim a [
    | inl a' ↦ omega (arith, below i (sym a'.1 ∙ e))
    | inr a' ↦ ground arith
  ]

  pub opened-Sync :
      (b : StreamBlockState) (blocks : StreamBlockLedger)
      → blocks.next_index ≡ suc l.blocks.next_index
      → b.index ≡ l.blocks.next_index
      → IsActivated l.blocks.next_index b.block_type text_block l.blocks.text_started
          l.blocks.text_index blocks.text_started blocks.text_index
      → IsActivated l.blocks.next_index b.block_type thinking_block l.blocks.thinking_started
          l.blocks.thinking_index blocks.thinking_started blocks.thinking_index
      → Sync (opened_as l.blocks.next_index b blocks l) (opened_checker (stored b.block_type))
  unfolding member no_repeats
  opened-Sync b blocks n e text thinking = record {
    same = λ i.
        Table.get-put l.blocks.next_index i (stored b.block_type) c.open_blocks
        ∙ ap (λ o. if l.blocks.next_index == i then some (stored b.block_type) else o) (h.same i)
        ∙ sym (open_kind-opened l.blocks.next_index i b l.open_stack l.content_blocks);
    kept = λ i m. ground (arith, h.kept i, Table.get-put l.blocks.next_index i b l.content_blocks);
    stack_distinct = ground (arith, stack-absent, h.stack_distinct);
    seen_below = λ i m. ground (arith, h.seen_below i);
    count = omega (arith, h.count, n);
    below =
        λ i m. ground (arith, h.below i, Table.get-put l.blocks.next_index i b l.content_blocks);
    named = λ i b' m.
        ground (arith, h.named i b', Table.get-put l.blocks.next_index i b l.content_blocks);
    text_active =
        activated b text_block l.blocks.text_started blocks.text_started l.blocks.text_index
          blocks.text_index blocks text h.text_active;
    thinking_active =
        activated b thinking_block l.blocks.thinking_started blocks.thinking_started
          l.blocks.thinking_index blocks.thinking_index blocks thinking h.thinking_active;
    text_below = λ i e. omega (
      arith,
      n,
      activated-IsBelow b.block_type text_block l.blocks.text_started blocks.text_started
          l.blocks.text_index blocks.text_index text h.text_below i e,
    );
    thinking_below = λ i e. omega (
      arith,
      n,
      activated-IsBelow b.block_type thinking_block l.blocks.thinking_started
          blocks.thinking_started l.blocks.thinking_index blocks.thinking_index thinking
          h.thinking_below i e,
    );
  }
