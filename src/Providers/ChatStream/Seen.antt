-- ===== src/Providers/ChatStream/Seen.antt =====
-- A stream that completes its blocks has at least one.
use free_claude_code_my_pr_i.Providers.ChatStream.{needs_space}
use free_claude_code_my_pr_i.Core.Streaming.Sync.{Sync}
use free_claude_code_my_pr_i.Core.Streaming.Contract.{check_event, check_events, Checker}
use free_claude_code_my_pr_i.Core.Streaming.Ledger.{
  message_stop, message_delta, content_block_stop, content_block_delta, content_block_start,
  message_start, Event, AnthropicStreamLedger,
}
use free_claude_code_my_pr_i.Core.Streaming.Emit.{
  has_content_block, is_tool_use, has_emitted_tool_block, filter, tool_blocks, is_nil,
}
use free_claude_code_my_pr_i.Prelude.Table.{Table}
use free_claude_code_my_pr_i.Prelude.Table
use free_claude_code_my_pr_i.Prelude.{
  ℕ, ◌<◌, ◌≡◌, ap, ◌∙◌, inl, inr, Bool, true, false, not, some, List, [], ◌∷◌, arith, Option-cases,
  is_some, length, list_cases,
}

abbrev pub has_seen : Checker → Bool
has_seen c = not (is_nil c.seen_blocks)

seen_event :
    (b : Bool) (e : Event) (c c' : Checker)
    → check_event b e c ≡ some c'
    → has_seen c ≡ true
    → has_seen c' ≡ true
unfolding check_event
seen_event b (message_start m) c c' k h = ground (arith, k, h)
seen_event b (content_block_start i block) c c' k h = ground (arith, k, h)
seen_event b (content_block_delta i d) c c' k h = ground (arith, k, h)
seen_event b (content_block_stop i) c c' k h = ground (arith, k, h)
seen_event b (message_delta s u) c c' k h = ground (arith, k, h)
seen_event b message_stop c c' k h = ground (arith, k, h)
seen_event b (Event.error s) c c' k h = ground (arith, k, h)

-- What was seen stays seen.
pub seen_events :
    (b : Bool) (es : List Event) (c c' : Checker)
    → check_events b es c ≡ some c'
    → has_seen c ≡ true
    → has_seen c' ≡ true
unfolding check_events
seen_events b [] c c' k h = ground (arith, k, h)
seen_events b (e ∷ es) c c' k h = elim (Option-cases (check_event b e c)) [
  | inl o ↦ ground (arith, o, k)
  | inr (d, o) ↦ seen_events b es d c' (ground (arith, o, k)) (seen_event b e c d o h)
]

module _ (l : AnthropicStreamLedger) (c : Checker) (h : Sync l c) where
  seen_below : (i : ℕ) → i < l.blocks.next_index → has_seen c ≡ true
  seen_below i k = elim (list_cases c.seen_blocks) [
    | inl e ↦ ground (arith, h.count, ap length e, k)
    | inr (x, xs, e) ↦ ground (arith, e)
  ]

  pub content-seen : has_content_block l ≡ true → has_seen c ≡ true
  unfolding Table.get
  content-seen t = elim (list_cases l.content_blocks) [
    | inl e ↦ ground (arith, t, e)
    | inr ((k, b), xs, e) ↦
        seen_below k (h.below k (ap (λ b. is_some (Table.get k b)) e ∙ ground arith))
  ]

  tool_block-seen : has_emitted_tool_block l ≡ true → has_seen c ≡ true
  unfolding tool_blocks filter Table.get
  tool_block-seen t = elim (list_cases l.content_blocks) [
    | inl e ↦ ground (arith, t, ap (λ b. not (is_nil (filter is_tool_use (Table.values b)))) e)
    | inr ((k, b), xs, e) ↦
        seen_below k (h.below k (ap (λ b. is_some (Table.get k b)) e ∙ ground arith))
  ]

  pub no_space-seen : needs_space l ≡ false → has_seen c ≡ true
  unfolding needs_space
  no_space-seen e = elim (Option-cases l.blocks.text_index) [
    | inr (i, t) ↦ seen_below i (h.text_below i t)
    | inl t ↦ elim (Option-cases l.blocks.thinking_index) [
      | inr (i, u) ↦ seen_below i (h.thinking_below i u)
      | inl u ↦ tool_block-seen (ground (arith, e, t, u))
    ]
  ]

  pub text-seen : l.blocks.text_started ≡ true → has_seen c ≡ true
  text-seen on = let (i, e, o) = h.text_active on in seen_below i (h.text_below i e)
