-- ===== src/Core/Streaming/Closing.antt =====
-- The generators that open and close blocks.
use free_claude_code_my_pr_i.Core.Streaming.Stack.{no_repeats}
use free_claude_code_my_pr_i.Core.Streaming.Block.{thinking_block, text_block}
use free_claude_code_my_pr_i.Core.Streaming.Stopping.{thinking_off-Sync, text_off-Sync}
use free_claude_code_my_pr_i.Core.Streaming.Emitting.{closed-Follows, stop-Follows}
use free_claude_code_my_pr_i.Core.Streaming.Calls.{moved, then-Follows, one, finished-Follows}
use free_claude_code_my_pr_i.Core.Streaming.Follows.{Follows}
use free_claude_code_my_pr_i.Core.Streaming.Sync.{open_kind, Sync}
use free_claude_code_my_pr_i.Core.Streaming.Contract.{Checker}
use free_claude_code_my_pr_i.Core.Streaming.Emit.{
  stop_block, yields_if, stop_text_block, stop_thinking_block, close_indexes,
}
use free_claude_code_my_pr_i.Core.Streaming.Ledger.{
  member, close_state, content_block_stop, Emits, AnthropicStreamLedger,
}
use free_claude_code_my_pr_i.Prelude.Table.{Table}
use free_claude_code_my_pr_i.Prelude.Table
use free_claude_code_my_pr_i.Prelude.{
  ℕ, ◌≡◌, refl, sym, subst, inl, inr, Bool, true, false, some, List, [], ◌∷◌, arith, Option-cases,
}

module _ (l : AnthropicStreamLedger) (c : Checker) (h : Sync l c) where
  pub yields_if-Follows :
      (b : Bool) (f : Emits) → (b ≡ true → Follows l c (one (f l))) → Follows l c (yields_if b f l)
  yields_if-Follows false f k = finished-Follows l c h
  yields_if-Follows true f k = k refl

  pub stop_text-Follows : l.blocks.text_started ≡ true → Follows l c (one (stop_text_block l))
  unfolding stop_text_block
  stop_text-Follows on =
      let (i, e, o) = h.text_active on in
      let l' : AnthropicStreamLedger = record l {
        blocks = record l.blocks { text_started = false };
      } in
      let f : Follows l' c (one (stop_block (some i) l')) =
        stop-Follows l' c (text_off-Sync l c h) i text_block o in
      subst (λ r. Follows l c (one (stop_block r l'))) (sym e)
        (moved l l' c (one (stop_block (some i) l')) refl refl f)

  pub stop_thinking-Follows :
      l.blocks.thinking_started ≡ true → Follows l c (one (stop_thinking_block l))
  unfolding stop_thinking_block
  stop_thinking-Follows on =
      let (i, e, o) = h.thinking_active on in
      let l' : AnthropicStreamLedger = record l {
        blocks = record l.blocks { thinking_started = false };
      } in
      let f : Follows l' c (one (stop_block (some i) l')) =
        stop-Follows l' c (thinking_off-Sync l c h) i thinking_block o in
      subst (λ r. Follows l c (one (stop_block r l'))) (sym e)
        (moved l l' c (one (stop_block (some i) l')) refl refl f)

open_stack-close_state :
    (i : ℕ) (l : AnthropicStreamLedger) → (close_state i l).open_stack ≡ l.open_stack
unfolding close_state
open_stack-close_state i l = elim (Option-cases (Table.get i l.content_blocks)) [
  | inl e ↦ rw (e, close_state) refl
  | inr (b, e) ↦ rw (e, close_state) refl
]

pub close_indexes-empty :
    (stack : List ℕ) (l : AnthropicStreamLedger)
    → l.open_stack ≡ stack
    → (close_indexes stack l).1.open_stack ≡ []
unfolding close_indexes
close_indexes-empty [] l e = e
close_indexes-empty (i ∷ stack) l e =
    close_indexes-empty stack (close_state i (record l { open_stack = stack }))
      (open_stack-close_state i (record l { open_stack = stack }))

-- The top of the stack is stopped.
top-Follows :
    (l : AnthropicStreamLedger) (c : Checker) (i : ℕ) (stack : List ℕ)
    → Sync l c
    → l.open_stack ≡ i ∷ stack
    → Follows l c
        (content_block_stop (some i) ∷ [], close_state i (record l { open_stack = stack }))
unfolding open_kind member no_repeats
top-Follows l c i stack h e =
    let m : member i l.open_stack ≡ true = ground (arith, e) in
    elim (Option-cases (Table.get i l.content_blocks)) [
      | inl o ↦ ground (arith, h.kept i m, o)
      | inr (b, o) ↦
          closed-Follows l c h i b.block_type stack (ground (arith, m, o))
            (λ j. ground (arith, e, h.stack_distinct)) (ground (arith, e, h.stack_distinct))
    ]

pub close_indexes-Follows :
    (stack : List ℕ) (l : AnthropicStreamLedger) (c : Checker)
    → Sync l c
    → l.open_stack ≡ stack
    → Follows l c (close_indexes stack l)
unfolding close_indexes
close_indexes-Follows [] l c h e = finished-Follows l c h
close_indexes-Follows (i ∷ stack) l c h e =
    then-Follows l c
      (λ l. (content_block_stop (some i) ∷ [], close_state i (record l { open_stack = stack })))
      (close_indexes stack) (top-Follows l c i stack h e)
      (λ c' h'.
        close_indexes-Follows stack (close_state i (record l { open_stack = stack })) c' h'
          (open_stack-close_state i (record l { open_stack = stack })))
