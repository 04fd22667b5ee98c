-- ===== src/Core/Streaming/Stopping.antt =====
-- A block that is stopped: the checker forgets it as the ledger does.
use free_claude_code_my_pr_i.Core.Streaming.Stack.{no_repeats}
use free_claude_code_my_pr_i.Core.Streaming.Block.{
  redacted_thinking_block, tool_use_block, thinking_block, text_block, other_block,
  StreamBlockLedger, BlockType, StreamBlockState,
}
use free_claude_code_my_pr_i.Core.Streaming.Sync.{open_kind-member, IsActive, open_kind, Sync}
use free_claude_code_my_pr_i.Core.Streaming.Contract.{stored, without, Checker}
use free_claude_code_my_pr_i.Core.Streaming.Ledger.{
  cleared, member, clear_active_content_block, close_state, AnthropicStreamLedger,
}
use free_claude_code_my_pr_i.Prelude.Table.{Table}
use free_claude_code_my_pr_i.Prelude.Table
use free_claude_code_my_pr_i.Prelude.{
  ℕ, ◌<◌, ◌≡◌, refl, sym, subst, ◌∙◌, ◌≢◌, inl, inr, Bool, true, false, Option, some, List, arith,
  ◌==◌, if◌then◌else◌, Option-cases,
}

pub record Clears (t : BlockType) (i : ℕ) (b b' : StreamBlockLedger) : Type 0 where
  pub next : b'.next_index ≡ b.next_index
  pub text_index : b'.text_index ≡ b.text_index
  pub thinking_index : b'.thinking_index ≡ b.thinking_index
  pub tool_states : b'.tool_states ≡ b.tool_states
  pub text_stays :
      b'.text_started ≡ true → (b.text_started ≡ true) × (b.text_index ≡ some i → t ≢ text_block)
  pub thinking_stays :
      b'.thinking_started ≡ true
      → (b.thinking_started ≡ true) × (b.thinking_index ≡ some i → t ≢ thinking_block)

pub cleared-Clears : (t : BlockType) (i : ℕ) (b : StreamBlockLedger) → Clears t i b (cleared t i b)
unfolding cleared
cleared-Clears text_block i b = record {
  next = ground arith;
  text_index = ground arith;
  thinking_index = ground arith;
  tool_states = ground arith;
  text_stays = λ e. ground arith;
  thinking_stays = λ e. ground arith;
}
cleared-Clears thinking_block i b = record {
  next = ground arith;
  text_index = ground arith;
  thinking_index = ground arith;
  tool_states = ground arith;
  text_stays = λ e. ground arith;
  thinking_stays = λ e. ground arith;
}
cleared-Clears tool_use_block i b = record {
  next = ground arith;
  text_index = ground arith;
  thinking_index = ground arith;
  tool_states = ground arith;
  text_stays = λ e. ground arith;
  thinking_stays = λ e. ground arith;
}
cleared-Clears redacted_thinking_block i b = record {
  next = ground arith;
  text_index = ground arith;
  thinking_index = ground arith;
  tool_states = ground arith;
  text_stays = λ e. ground arith;
  thinking_stays = λ e. ground arith;
}
cleared-Clears (other_block s) i b = record {
  next = ground arith;
  text_index = ground arith;
  thinking_index = ground arith;
  tool_states = ground arith;
  text_stays = λ e. ground arith;
  thinking_stays = λ e. ground arith;
}

module _ (l : AnthropicStreamLedger) (c : Checker) (h : Sync l c) where
  pub text_off-Sync : Sync (record l { blocks = record l.blocks { text_started = false } }) c
  text_off-Sync = record {
    same = h.same;
    kept = h.kept;
    stack_distinct = h.stack_distinct;
    seen_below = h.seen_below;
    count = h.count;
    below = h.below;
    named = h.named;
    text_active = λ e. ground arith;
    thinking_active = h.thinking_active;
    text_below = h.text_below;
    thinking_below = h.thinking_below;
  }

  pub thinking_off-Sync :
      Sync (record l { blocks = record l.blocks { thinking_started = false } }) c
  thinking_off-Sync = record {
    same = h.same;
    kept = h.kept;
    stack_distinct = h.stack_distinct;
    seen_below = h.seen_below;
    count = h.count;
    below = h.below;
    named = h.named;
    text_active = h.text_active;
    thinking_active = λ e. ground arith;
    text_below = h.text_below;
    thinking_below = h.thinking_below;
  }

  -- The ledger after its block `b` at `i` was stopped, and the stack that is left.
  abbrev pub stopped_as : ℕ → StreamBlockState → List ℕ → AnthropicStreamLedger
  stopped_as i b stack = record l {
    open_stack = stack;
    content_blocks = Table.modify i (λ b'. record b' { opened = false }) l.content_blocks;
    blocks = clear_active_content_block b l.blocks;
  }

  module _ (i : ℕ) (b : StreamBlockState) (stack : List ℕ)
      (at : Table.get i l.content_blocks ≡ some b) where
    pub close_state-stopped : close_state i (record l { open_stack = stack }) ≡ stopped_as i b stack
    unfolding close_state
    close_state-stopped = rw (at, close_state) refl

    stays-IsActive :
        (t : BlockType) (started started' : Bool) (index : Option ℕ)
        → ((j : ℕ) → member j stack ≡ (if i == j then false else member j l.open_stack))
        → (started' ≡ true → (started ≡ true) × (index ≡ some i → b.block_type ≢ t))
        → IsActive started index t l
        → IsActive started' index t (stopped_as i b stack)
    unfolding open_kind
    stays-IsActive t started started' index left keeps active on =
        let (s, keeps') = keeps on in
        let (j, e, o) = active s in
        let (m, (b', g, k)) = open_kind-member j (stored t) l.open_stack l.content_blocks o in
        let differs : (i == j) ≡ false = ground (arith, at, g, k, e, keeps') in
        let o' : open_kind stack
              (Table.modify i (λ b'. record b' { opened = false }) l.content_blocks) j
            ≡ some (stored t) =
          ground (
            arith,
            o,
            differs,
            left j,
            Table.get-modify i j (λ b'. record b' { opened = false }) l.content_blocks,
          ) in
        (j, e, o')

    stopped_as-Sync :
        ((j : ℕ) → member j stack ≡ (if i == j then false else member j l.open_stack))
        → no_repeats stack ≡ true
        → Clears b.block_type i l.blocks (clear_active_content_block b l.blocks)
        → Sync (stopped_as i b stack) (without (some i) c)
    unfolding open_kind
    stopped_as-Sync left once cl = record {
      same = λ j. ground (
        arith,
        h.same j,
        left j,
        Table.get-pop i j c.open_blocks,
        Table.get-modify i j (λ b'. record b' { opened = false }) l.content_blocks,
      );
      kept = λ j m. ground (
        arith,
        h.kept j,
        left j,
        Table.get-modify i j (λ b'. record b' { opened = false }) l.content_blocks,
      );
      stack_distinct = once;
      seen_below = λ j m. subst (λ n. j < n) (sym cl.next) (h.seen_below j m);
      count = h.count ∙ sym cl.next;
      below = λ j m. ground (
        arith,
        h.below j,
        cl.next,
        Table.get-modify i j (λ b'. record b' { opened = false }) l.content_blocks,
      );
      named = λ j b' m. elim (Option-cases (Table.get j l.content_blocks)) [
        | inl e ↦
            ground
              (arith, m, Table.get-modify i j (λ b'. record b' { opened = false }) l.content_blocks)
        | inr (b0, e) ↦ ground (
          arith,
          m,
          h.named j b0 e,
          Table.get-modify i j (λ b'. record b' { opened = false }) l.content_blocks,
        )
      ];
      text_active =
          subst
            (λ o.
              IsActive (clear_active_content_block b l.blocks).text_started o text_block
                (stopped_as i b stack))
            (sym cl.text_index)
            (stays-IsActive text_block l.blocks.text_started
              (clear_active_content_block b l.blocks).text_started l.blocks.text_index left
              (λ e. cl.text_stays e) h.text_active);
      thinking_active =
          subst
            (λ o.
              IsActive (clear_active_content_block b l.blocks).thinking_started o thinking_block
                (stopped_as i b stack))
            (sym cl.thinking_index)
            (stays-IsActive thinking_block l.blocks.thinking_started
              (clear_active_content_block b l.blocks).thinking_started l.blocks.thinking_index left
              (λ e. cl.thinking_stays e) h.thinking_active);
      text_below = λ j e. subst (λ n. j < n) (sym cl.next) (h.text_below j (sym cl.text_index ∙ e));
      thinking_below =
          λ j e. subst (λ n. j < n) (sym cl.next) (h.thinking_below j (sym cl.thinking_index ∙ e));
    }

    pub stopped-Sync :
        ((j : ℕ) → member j stack ≡ (if i == j then false else member j l.open_stack))
        → no_repeats stack ≡ true
        → Sync (close_state i (record l { open_stack = stack })) (without (some i) c)
    stopped-Sync left once =
        subst (λ r. Sync r (without (some i) c)) (sym close_state-stopped)
          (stopped_as-Sync left once (
            subst (λ n. Clears b.block_type i l.blocks (cleared b.block_type n l.blocks))
              (sym (h.named i b at)) (cleared-Clears b.block_type i l.blocks)))
