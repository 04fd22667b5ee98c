-- ===== src/Core/Streaming/Emitting.antt =====
-- Each call that emits a delta or stops a block.
use free_claude_code_my_pr_i.Core.Streaming.Stopping.{stopped-Sync}
use text.Mathlib.TextLemmas.{append-nil}
use free_claude_code_my_pr_i.Core.Streaming.Stack.{
  remove_open-no_repeats, member-remove_open, no_repeats,
}
use free_claude_code_my_pr_i.Core.Streaming.Calls.{event-Follows, silent-Follows, one}
use free_claude_code_my_pr_i.Core.Streaming.Follows.{Follows}
use free_claude_code_my_pr_i.Core.Streaming.Block.{
  thinking_block, text_block, tool_use_block, BlockType,
}
use free_claude_code_my_pr_i.Core.Streaming.Emit.{
  accumulated_reasoning, accumulated_text, delta_block, emit_text_delta, emit_thinking_delta,
  stop_block,
}
use free_claude_code_my_pr_i.Core.Streaming.Sync.{
  open_kind-member, IsActive, open_kind-extended, open_kind, Sync,
}
use free_claude_code_my_pr_i.Core.Streaming.Contract.{
  without, accepts, Storage, check_event, thinking_of, text_of, stored, Checker,
}
use free_claude_code_my_pr_i.Core.Streaming.Ledger.{
  content_block_stop, thinking_delta, remove_open, record_block_stop, record_delta, Delta,
  close_state, member, record_block_delta, text_delta, content_block_delta, input_json_delta,
  add_part, AnthropicStreamLedger,
}
use free_claude_code_my_pr_i.Prelude.Table.{Table}
use free_claude_code_my_pr_i.Prelude.Table
use free_claude_code_my_pr_i.Prelude.{
  ℕ, String, ◌≡◌, refl, sym, ap, subst, ◌∙◌, inl, inr, Bool, true, false, Option, some, List, [],
  ◌∷◌, ◌++◌, arith, ◌==◌, if◌then◌else◌, Option-cases, join-last, ◌⊕◌,
}

module _ (l : AnthropicStreamLedger) (c : Checker) (h : Sync l c) where
  extended-IsActive :
      (i : ℕ) (s : String) (ts hs : List String) (t : BlockType) (started : Bool) (index : Option ℕ)
      → IsActive started index t l
      → IsActive started index t (record (add_part i s l) { text_parts = ts; thinking_parts = hs })
  extended-IsActive i s ts hs t started index active on =
      let (j, e, o) = active on in
      (j, e, open_kind-extended i j s l.open_stack l.content_blocks ∙ o)

  -- A delta that the open block at `i` takes, with the texts that it leaves.
  pub extended-Sync :
      (i : ℕ) (s : String) (ts hs : List String)
      → Sync (record (add_part i s l) { text_parts = ts; thinking_parts = hs }) c
  extended-Sync i s ts hs = record {
    same = λ j. h.same j ∙ sym (open_kind-extended i j s l.open_stack l.content_blocks);
    kept = λ j m. ground (
      arith,
      h.kept j,
      Table.get-modify i j (λ b. record b { parts = b.parts ++ s ∷ [] }) l.content_blocks,
    );
    stack_distinct = h.stack_distinct;
    seen_below = h.seen_below;
    count = h.count;
    below = λ j m. ground (
      arith,
      h.below j,
      Table.get-modify i j (λ b. record b { parts = b.parts ++ s ∷ [] }) l.content_blocks,
    );
    named = λ j b' m. elim (Option-cases (Table.get j l.content_blocks)) [
      | inl e ↦ ground (
        arith,
        m,
        Table.get-modify i j (λ b. record b { parts = b.parts ++ s ∷ [] }) l.content_blocks,
      )
      | inr (b0, e) ↦ ground (
        arith,
        m,
        h.named j b0 e,
        Table.get-modify i j (λ b. record b { parts = b.parts ++ s ∷ [] }) l.content_blocks,
      )
    ];
    text_active =
        extended-IsActive i s ts hs text_block l.blocks.text_started l.blocks.text_index
          h.text_active;
    thinking_active =
        extended-IsActive i s ts hs thinking_block l.blocks.thinking_started l.blocks.thinking_index
          h.thinking_active;
    text_below = h.text_below;
    thinking_below = h.thinking_below;
  }

  record_block_delta-open :
      (i : ℕ) (t : BlockType) (d : Delta)
      → open_kind l.open_stack l.content_blocks i ≡ some (stored t)
      → record_block_delta (some i) d l ≡ record_delta i t d l
  unfolding record_block_delta
  record_block_delta-open i t d o =
      let (m, (b, at, k)) = open_kind-member i (stored t) l.open_stack l.content_blocks o in
      rw (at, record_block_delta) (ap (λ t'. record_delta i t' d l) (ground (arith, k)))

  check_event-delta :
      (i : ℕ) (t : BlockType) (d : Delta)
      → open_kind l.open_stack l.content_blocks i ≡ some (stored t)
      → accepts (stored t) d ≡ true
      → check_event false (content_block_delta (some i) d) c ≡ some c
  unfolding check_event
  check_event-delta i t d o a = ground (arith, h.same i, o, a)

  -- A delta that the open block at `i` takes.
  delta-Follows :
      (i : ℕ) (t : BlockType) (d : Delta)
      → open_kind l.open_stack l.content_blocks i ≡ some (stored t)
      → accepts (stored t) d ≡ true
      → Sync (record_delta i t d l) c
      → accumulated_text (record_delta i t d l)
        ≡ accumulated_text l ⊕ text_of (content_block_delta (some i) d)
      → accumulated_reasoning (record_delta i t d l)
        ≡ accumulated_reasoning l ⊕ thinking_of (content_block_delta (some i) d)
      → Follows l c (one (delta_block (some i) d l))
  unfolding delta_block
  delta-Follows i t d o a k te he =
      subst (λ l'. Follows l c (content_block_delta (some i) d ∷ [], l'))
        (sym (record_block_delta-open i t d o))
        (event-Follows l (record_delta i t d l) c c (content_block_delta (some i) d)
          (check_event-delta i t d o a) k te he)

  pub text_delta-Follows :
      (s : String) → l.blocks.text_started ≡ true → Follows l c (one (emit_text_delta s l))
  unfolding emit_text_delta record_delta text_of thinking_of accepts
  text_delta-Follows s on =
      let (i, e, o) = h.text_active on in
      subst (λ r. Follows l c (one (delta_block r (text_delta s) l))) (sym e)
        (delta-Follows i text_block (text_delta s) o refl
          (extended-Sync i s (l.text_parts ++ s ∷ []) l.thinking_parts) (join-last l.text_parts s)
          (sym (append-nil (accumulated_reasoning l))))

  pub thinking_delta-Follows :
      (s : String) → l.blocks.thinking_started ≡ true → Follows l c (one (emit_thinking_delta s l))
  unfolding emit_thinking_delta record_delta text_of thinking_of accepts
  thinking_delta-Follows s on =
      let (i, e, o) = h.thinking_active on in
      subst (λ r. Follows l c (one (delta_block r (thinking_delta s) l))) (sym e)
        (delta-Follows i thinking_block (thinking_delta s) o refl
          (extended-Sync i s l.text_parts (l.thinking_parts ++ s ∷ []))
          (sym (append-nil (accumulated_text l))) (join-last l.thinking_parts s))

  -- The arguments of a tool call whose block at `i` is open.
  pub input_delta-Follows :
      (i : ℕ) (s : String)
      → open_kind l.open_stack l.content_blocks i ≡ some (stored tool_use_block)
      → Follows l c (one (delta_block (some i) (input_json_delta s) l))
  unfolding record_delta text_of thinking_of accepts
  input_delta-Follows i s o =
      delta-Follows i tool_use_block (input_json_delta s) o refl
        (extended-Sync i s l.text_parts l.thinking_parts) (sym (append-nil (accumulated_text l)))
        (sym (append-nil (accumulated_reasoning l)))

  check_event-stop :
      (i : ℕ) (t : Storage)
      → open_kind l.open_stack l.content_blocks i ≡ some t
      → check_event false (content_block_stop (some i)) c ≡ some (without (some i) c)
  unfolding check_event
  check_event-stop i t o = ground (arith, h.same i, o)

  parts-close_state :
      (i : ℕ) (stack : List ℕ)
      → ((close_state i (record l { open_stack = stack })).text_parts ≡ l.text_parts)
        × ((close_state i (record l { open_stack = stack })).thinking_parts ≡ l.thinking_parts)
  unfolding close_state
  parts-close_state i stack = elim (Option-cases (Table.get i l.content_blocks)) [
    | inl e ↦ rw (e, close_state) (refl, refl)
    | inr (b, e) ↦ rw (e, close_state) (refl, refl)
  ]

  -- The open block at `i` is stopped, and `stack` is left.
  pub closed-Follows :
      (i : ℕ) (t : BlockType) (stack : List ℕ)
      → open_kind l.open_stack l.content_blocks i ≡ some (stored t)
      → ((j : ℕ) → member j stack ≡ (if i == j then false else member j l.open_stack))
      → no_repeats stack ≡ true
      → Follows l c
          (content_block_stop (some i) ∷ [], close_state i (record l { open_stack = stack }))
  unfolding text_of thinking_of
  closed-Follows i t stack o left once =
      let (m, (b, at, k)) = open_kind-member i (stored t) l.open_stack l.content_blocks o in
      let (p, q) = parts-close_state i stack in
      silent-Follows l (close_state i (record l { open_stack = stack })) c (without (some i) c)
        (content_block_stop (some i)) (check_event-stop i (stored t) o)
        (stopped-Sync l c h i b stack at left once) refl refl p q

  pub stop-Follows :
      (i : ℕ) (t : BlockType)
      → open_kind l.open_stack l.content_blocks i ≡ some (stored t)
      → Follows l c (one (stop_block (some i) l))
  unfolding stop_block record_block_stop
  stop-Follows i t o =
      closed-Follows i t (remove_open i l.open_stack) o
        (λ j. member-remove_open i j l.open_stack h.stack_distinct)
        (remove_open-no_repeats i l.open_stack h.stack_distinct)
