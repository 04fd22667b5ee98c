-- ===== src/Core/Streaming/Writing.antt =====
-- Writing text and thinking leaves the open tool calls open.
use free_claude_code_my_pr_i.Core.Streaming.Keeping.{
  Keeps, Keeps-refl, stop-covers, stop-others, Covered, stop-states, Keeps-trans, CoveredAt,
  start-KeepsOpen,
}
use free_claude_code_my_pr_i.Core.Streaming.Starting.{start_thinking-Follows, start_text-Follows}
use free_claude_code_my_pr_i.Core.Streaming.Closing.{stop_text-Follows, stop_thinking-Follows}
use free_claude_code_my_pr_i.Core.Streaming.Stopping.{thinking_off-Sync, text_off-Sync}
use free_claude_code_my_pr_i.Core.Streaming.Calls.{finished-Follows, one, then-Follows}
use free_claude_code_my_pr_i.Core.Streaming.Follows.{Follows}
use free_claude_code_my_pr_i.Core.Streaming.Block.{
  reserve_index, allocate_index, thinking_block, text_block, StreamBlockLedger, StreamBlockState,
}
use free_claude_code_my_pr_i.Core.Streaming.Sync.{open_kind-opened, Sync}
use free_claude_code_my_pr_i.Core.Streaming.Contract.{Checker}
use free_claude_code_my_pr_i.Core.Streaming.Emit.{
  yields_if, start_block, stop_block, close_content_blocks, ensure_text_block, start_thinking_block,
  stop_text_block, stop_thinking_block, start_text_block, ensure_thinking_block, ◌>>◌,
}
use free_claude_code_my_pr_i.Core.Streaming.Ledger.{
  new_state, record_block_start, Emits, opened_as, Event, Yields, record_block_stop,
  AnthropicStreamLedger,
}
use free_claude_code_my_pr_i.Prelude.{
  ℕ, ◌≡◌, refl, sym, subst, inl, inr, Bool, true, false, not, List, arith, ◌==◌, Bool-cases,
}

-- What is accepted, with the open tool calls kept.
pub record Writes (l : AnthropicStreamLedger) (c : Checker) (r : List Event × AnthropicStreamLedger)
    : Type 0 where
  pub follows : Follows l c r
  pub keeps : Keeps l r.1

pub then-Writes :
    (l : AnthropicStreamLedger) (c : Checker) (f g : Yields)
    → Writes l c (f l)
    → ((c' : Checker) → Sync (f l).1 c' → Writes (f l).1 c' (g (f l).1))
    → Writes l c ((f >> g) l)
then-Writes l c f g h k = record {
  follows = then-Follows l c f g h.follows (λ c' h'. (k c' h').follows);
  keeps = Keeps-trans l (f l).1 (g (f l).1).1 h.keeps (k h.follows.after h.follows.sync).keeps;
}

pub yields_if-Writes :
    (l : AnthropicStreamLedger) (c : Checker) (b : Bool) (f : Emits)
    → Sync l c
    → (b ≡ true → Writes l c (one (f l)))
    → Writes l c (yields_if b f l)
yields_if-Writes l c false f h k = record { follows = finished-Follows l c h; keeps = Keeps-refl l }
yields_if-Writes l c true f h k = k refl

-- A block of text or thinking that starts at the next index.
start-covers :
    (l : AnthropicStreamLedger) (b : StreamBlockState) (blocks : StreamBlockLedger)
    → blocks.tool_states ≡ l.blocks.tool_states
    → CoveredAt (opened_as l.blocks.next_index b blocks l) l.blocks.next_index
    → ((i : ℕ) → CoveredAt l i → CoveredAt (opened_as l.blocks.next_index b blocks l) i)
    → Covered l
    → Covered (opened_as l.blocks.next_index b blocks l)
start-covers l b blocks same new old f i s o = elim (Bool-cases (l.blocks.next_index == i)) [
  | inl q ↦ subst (CoveredAt (opened_as l.blocks.next_index b blocks l)) (ground (arith, q)) new
  | inr q ↦ old i (
      f i s (
        ground
          (arith, q, o, open_kind-opened l.blocks.next_index i b l.open_stack l.content_blocks)))
]

module _ (l : AnthropicStreamLedger) (c : Checker) (h : Sync l c) where
  start_text-Writes : l.blocks.text_started ≡ false → Writes l c (one (start_text_block l))
  unfolding start_text_block start_block record_block_start allocate_index reserve_index
  start_text-Writes off = record {
    follows = start_text-Follows l c h;
    keeps = record {
      states = refl;
      opened =
          start-KeepsOpen l c (new_state l.blocks.next_index text_block)
            (start_text_block l).1.blocks h;
      covers =
          start-covers l (new_state l.blocks.next_index text_block) (start_text_block l).1.blocks
            refl (inl (refl, refl))
            (λ i. λ x. elim x [ inl y ↦ ground (arith, y.0, off) | inr y ↦ inr y ]);
    };
  }

  start_thinking-Writes :
      l.blocks.thinking_started ≡ false → Writes l c (one (start_thinking_block l))
  unfolding start_thinking_block start_block record_block_start allocate_index reserve_index
  start_thinking-Writes off = record {
    follows = start_thinking-Follows l c h;
    keeps = record {
      states = refl;
      opened =
          start-KeepsOpen l c (new_state l.blocks.next_index thinking_block)
            (start_thinking_block l).1.blocks h;
      covers =
          start-covers l (new_state l.blocks.next_index thinking_block)
            (start_thinking_block l).1.blocks refl (inr (inl (refl, refl)))
            (λ i. λ x. elim x [
              | inl y ↦ inl y
              | inr y ↦ elim y [ inl z ↦ ground (arith, z.0, off) | inr z ↦ inr (inr z) ]
            ]);
    };
  }

  stop_text-Writes : l.blocks.text_started ≡ true → Writes l c (one (stop_text_block l))
  unfolding stop_text_block stop_block
  stop_text-Writes on =
      let (i, e, o) = h.text_active on in
      let l' : AnthropicStreamLedger = record l {
        blocks = record l.blocks { text_started = false };
      } in
      let h' : Sync l' c = text_off-Sync l c h in
      record {
        follows = stop_text-Follows l c h on;
        keeps =
            subst (λ r. Keeps l (record_block_stop r l')) (sym e)
              (record {
                states = stop-states l' c h' i text_block o;
                opened = λ j p. stop-others l' c h' i text_block o j (ground (arith, o, p)) p;
                covers = λ f. stop-covers l' c h' i text_block o (λ j s d p. elim (f j s p) [
                  | inl y ↦ ground (arith, e, y.1, d)
                  | inr y ↦ inr y
                ]);
              });
      }

  stop_thinking-Writes : l.blocks.thinking_started ≡ true → Writes l c (one (stop_thinking_block l))
  unfolding stop_thinking_block stop_block
  stop_thinking-Writes on =
      let (i, e, o) = h.thinking_active on in
      let l' : AnthropicStreamLedger = record l {
        blocks = record l.blocks { thinking_started = false };
      } in
      let h' : Sync l' c = thinking_off-Sync l c h in
      record {
        follows = stop_thinking-Follows l c h on;
        keeps =
            subst (λ r. Keeps l (record_block_stop r l')) (sym e)
              (record {
                states = stop-states l' c h' i thinking_block o;
                opened = λ j p. stop-others l' c h' i thinking_block o j (ground (arith, o, p)) p;
                covers = λ f. stop-covers l' c h' i thinking_block o (λ j s d p. elim (f j s p) [
                  | inl y ↦ inl y
                  | inr y ↦ elim y [ inl z ↦ ground (arith, e, z.1, d) | inr z ↦ inr (inr z) ]
                ]);
              });
      }

pub ensure_text-Writes :
    (l : AnthropicStreamLedger) (c : Checker) → Sync l c → Writes l c (ensure_text_block l)
unfolding ensure_text_block
ensure_text-Writes l c h =
    then-Writes l c (λ l. yields_if l.blocks.thinking_started stop_thinking_block l)
      (λ l. yields_if (not l.blocks.text_started) start_text_block l)
      (yields_if-Writes l c l.blocks.thinking_started stop_thinking_block h
        (stop_thinking-Writes l c h))
      (λ c' h'.
        yields_if-Writes (yields_if l.blocks.thinking_started stop_thinking_block l).1 c'
          (not (yields_if l.blocks.thinking_started stop_thinking_block l).1.blocks.text_started)
          start_text_block h'
          (λ off.
            start_text-Writes (yields_if l.blocks.thinking_started stop_thinking_block l).1 c' h'
              (ground (arith, off))))

pub ensure_thinking-Writes :
    (l : AnthropicStreamLedger) (c : Checker) → Sync l c → Writes l c (ensure_thinking_block l)
unfolding ensure_thinking_block
ensure_thinking-Writes l c h =
    then-Writes l c (λ l. yields_if l.blocks.text_started stop_text_block l)
      (λ l. yields_if (not l.blocks.thinking_started) start_thinking_block l)
      (yields_if-Writes l c l.blocks.text_started stop_text_block h (stop_text-Writes l c h))
      (λ c' h'.
        yields_if-Writes (yields_if l.blocks.text_started stop_text_block l).1 c'
          (not (yields_if l.blocks.text_started stop_text_block l).1.blocks.thinking_started)
          start_thinking_block h'
          (λ off.
            start_thinking-Writes (yields_if l.blocks.text_started stop_text_block l).1 c' h'
              (ground (arith, off))))

pub close_content-Writes :
    (l : AnthropicStreamLedger) (c : Checker) → Sync l c → Writes l c (close_content_blocks l)
unfolding close_content_blocks
close_content-Writes l c h =
    then-Writes l c (λ l. yields_if l.blocks.thinking_started stop_thinking_block l)
      (λ l. yields_if l.blocks.text_started stop_text_block l)
      (yields_if-Writes l c l.blocks.thinking_started stop_thinking_block h
        (stop_thinking-Writes l c h))
      (λ c' h'.
        yields_if-Writes (yields_if l.blocks.thinking_started stop_thinking_block l).1 c'
          (yields_if l.blocks.thinking_started stop_thinking_block l).1.blocks.text_started
          stop_text_block h'
          (λ on.
            stop_text-Writes (yields_if l.blocks.thinking_started stop_thinking_block l).1 c' h'
              on))
