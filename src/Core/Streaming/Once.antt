-- ===== src/Core/Streaming/Once.antt =====
-- A block that starts and stops within one call, with at most one delta.
use free_claude_code_my_pr_i.Core.Streaming.Emitting.{stop-Follows}
use free_claude_code_my_pr_i.Core.Streaming.Calls.{then-Follows, one, silent-Follows}
use free_claude_code_my_pr_i.Core.Streaming.Writing.{Writes}
use free_claude_code_my_pr_i.Core.Streaming.Keeping.{
  stop-covers, start-KeepsOpen, stop-others, stop-states, indexes, CoveredAt,
}
use free_claude_code_my_pr_i.Core.Streaming.Follows.{
  stack-absent, opened-Sync, check_event-start, opened_checker, Follows,
}
use free_claude_code_my_pr_i.Core.Streaming.Block.{
  text_block, thinking_block, redacted_thinking_block, other_block, tool_use_block,
  StreamBlockLedger, StreamBlockState, BlockType,
}
use free_claude_code_my_pr_i.Core.Streaming.Contract.{
  thinking_of, text_of, storage, Storage, is_allowed, stored, Checker,
}
use free_claude_code_my_pr_i.Core.Streaming.Sync.{
  open_kind-member, open_kind-opened, Sync, open_kind-extended, open_kind,
}
use free_claude_code_my_pr_i.Core.Streaming.Emit.{stop_block, ◌>>◌, delta_block}
use free_claude_code_my_pr_i.Core.Streaming.Ledger.{
  Delta, text_delta, thinking_delta, member, content_block_start, type_of, Event, opened_as,
  ContentBlock, record_delta, input_json_delta, record_block_delta, add_part, AnthropicStreamLedger,
}
use free_claude_code_my_pr_i.Prelude.Table.{Table}
use free_claude_code_my_pr_i.Prelude.Table
use free_claude_code_my_pr_i.Prelude.{
  ℕ, suc, String, ◌≡◌, refl, sym, ap, subst, ◌∙◌, inl, inr, true, false, Option, none, some, List,
  [], ◌∷◌, arith, ◌==◌, Option-cases,
}

-- The same blocks are open, and the block ledger is the same.
pub record IsSame (l l' : AnthropicStreamLedger) : Type 0 where
  pub kinds :
      (i : ℕ)
      → open_kind l'.open_stack l'.content_blocks i ≡ open_kind l.open_stack l.content_blocks i
  pub blocks : l'.blocks ≡ l.blocks

extended-IsSame :
    (i : ℕ) (s : String) (ts hs : List String) (l : AnthropicStreamLedger)
    → IsSame l (record (add_part i s l) { text_parts = ts; thinking_parts = hs })
extended-IsSame i s ts hs l = record {
  kinds = λ j. open_kind-extended i j s l.open_stack l.content_blocks;
  blocks = refl;
}

record_input-IsSame :
    (i : ℕ) (t : BlockType) (s : String) (l : AnthropicStreamLedger)
    → IsSame l (record_delta i t (input_json_delta s) l)
unfolding record_delta
record_input-IsSame i tool_use_block s l = extended-IsSame i s l.text_parts l.thinking_parts l
record_input-IsSame i text_block s l = record { kinds = λ j. refl; blocks = refl }
record_input-IsSame i thinking_block s l = record { kinds = λ j. refl; blocks = refl }
record_input-IsSame i redacted_thinking_block s l = record { kinds = λ j. refl; blocks = refl }
record_input-IsSame i (other_block t) s l = record { kinds = λ j. refl; blocks = refl }

pub input-IsSame :
    (i : ℕ) (s : String) (l : AnthropicStreamLedger)
    → IsSame l (delta_block (some i) (input_json_delta s) l).1
unfolding delta_block record_block_delta
input-IsSame i s l = elim (Option-cases (Table.get i l.content_blocks)) [
  | inl e ↦ rw (e, record_block_delta) (record { kinds = λ j. refl; blocks = refl })
  | inr (b, e) ↦ rw (e, record_block_delta) (record_input-IsSame i b.block_type s l)
]

module _ (l : AnthropicStreamLedger) (c : Checker) (h : Sync l c) (b : StreamBlockState)
    (blocks : StreamBlockLedger) (block : ContentBlock) where
  -- The block `b` is put at the next index, and neither text nor thinking is touched.
  pub record Puts : Type 0 where
    pub allowed : is_allowed (type_of block) ≡ true
    pub kind : storage block ≡ stored b.block_type
    pub no_text : text_of (content_block_start l.blocks.next_index block) ≡ ""
    pub no_thinking : thinking_of (content_block_start l.blocks.next_index block) ≡ ""
    pub index : b.index ≡ l.blocks.next_index
    pub next : blocks.next_index ≡ suc l.blocks.next_index
    pub text_started : blocks.text_started ≡ l.blocks.text_started
    pub text_index : blocks.text_index ≡ l.blocks.text_index
    pub thinking_started : blocks.thinking_started ≡ l.blocks.thinking_started
    pub thinking_index : blocks.thinking_index ≡ l.blocks.thinking_index
    pub tool_states : blocks.tool_states ≡ l.blocks.tool_states

  module _ (p : Puts) where
    abbrev begun : AnthropicStreamLedger
    begun = opened_as l.blocks.next_index b blocks l

    begun-Follows : Follows l c (content_block_start l.blocks.next_index block ∷ [], begun)
    begun-Follows =
        silent-Follows l begun c (opened_checker l c h (stored b.block_type))
          (content_block_start l.blocks.next_index block)
          (check_event-start l c h block p.allowed ∙ ap (λ s. some (opened_checker l c h s)) p.kind)
          (opened-Sync l c h b blocks p.next p.index (inl (p.text_started, p.text_index))
            (inl (p.thinking_started, p.thinking_index)))
          p.no_text p.no_thinking refl refl

    begun-open :
        open_kind begun.open_stack begun.content_blocks l.blocks.next_index
        ≡ some (stored b.block_type)
    begun-open = ground (
      arith,
      open_kind-opened l.blocks.next_index l.blocks.next_index b l.open_stack l.content_blocks,
    )

    module _ (es : List Event) (l3 : AnthropicStreamLedger) (same : IsSame begun l3)
        (middle : (c' : Checker) → Sync begun c' → Follows begun c' (es, l3)) where
      ended-open :
          open_kind l3.open_stack l3.content_blocks l.blocks.next_index ≡ some (stored b.block_type)
      ended-open = same.kinds l.blocks.next_index ∙ begun-open

      -- All that is open at the end, besides the block itself, was open before.
      was-open :
          (i : ℕ) (s : Storage)
          → (l.blocks.next_index == i) ≡ false
          → open_kind l3.open_stack l3.content_blocks i ≡ some s
          → open_kind l.open_stack l.content_blocks i ≡ some s
      was-open i s d o = ground (
        arith,
        d,
        o,
        same.kinds i,
        open_kind-opened l.blocks.next_index i b l.open_stack l.content_blocks,
      )

      covered-still : (i : ℕ) → CoveredAt l i → CoveredAt l3 i
      covered-still i x =
          subst (λ bs. CoveredAt (record l3 { blocks = bs }) i) (sym same.blocks)
            (elim x [
              | inl y ↦ inl (p.text_started ∙ y.0, p.text_index ∙ y.1)
              | inr y ↦ elim y [
                | inl z ↦ inr (inl (p.thinking_started ∙ z.0, p.thinking_index ∙ z.1))
                | inr m ↦ inr (inr (ap (λ t. member i (indexes t)) p.tool_states ∙ m))
              ]
            ])

      pub once-Writes : Writes l c (
          ((λ _. (content_block_start l.blocks.next_index block ∷ [], begun))
              >> (λ _. (es, l3))
              >> (λ k. one (stop_block (some l.blocks.next_index) k)))
            l)
      unfolding stop_block
      once-Writes = once (middle begun-Follows.after begun-Follows.sync)
        where
          once :
              Follows begun begun-Follows.after (es, l3)
              → Writes l c (
                  ((λ _. (content_block_start l.blocks.next_index block ∷ [], begun))
                      >> (λ _. (es, l3))
                      >> (λ k. one (stop_block (some l.blocks.next_index) k)))
                    l)
          once g = record {
            follows =
                then-Follows l c (λ _. (content_block_start l.blocks.next_index block ∷ [], begun))
                  ((λ _. (es, l3)) >> (λ k. one (stop_block (some l.blocks.next_index) k)))
                  begun-Follows
                  (λ c' h'.
                    then-Follows begun c' (λ _. (es, l3))
                      (λ k. one (stop_block (some l.blocks.next_index) k)) (middle c' h')
                      (λ c'' h''.
                        stop-Follows l3 c'' h'' l.blocks.next_index b.block_type ended-open));
            keeps = record {
              states =
                  stop-states l3 g.after g.sync l.blocks.next_index b.block_type ended-open
                  ∙ ap (λ bs. bs.tool_states) same.blocks
                  ∙ p.tool_states;
              opened = λ i o.
                  stop-others l3 g.after g.sync l.blocks.next_index b.block_type ended-open i
                    (ground (
                      arith,
                      stack-absent l c h,
                      open_kind-member i (stored tool_use_block) l.open_stack l.content_blocks o,
                    ))
                    (same.kinds i ∙ start-KeepsOpen l c b blocks h i o);
              covers = λ f.
                  stop-covers l3 g.after g.sync l.blocks.next_index b.block_type ended-open
                    (λ i s d o. covered-still i (f i s (was-open i s d o)));
            };
          }

record_delta-blocks :
    (i : ℕ) (t : BlockType) (d : Delta) (l : AnthropicStreamLedger)
    → (record_delta i t d l).blocks ≡ l.blocks
unfolding record_delta
record_delta-blocks i text_block (text_delta s) l = refl
record_delta-blocks i thinking_block (thinking_delta s) l = refl
record_delta-blocks i tool_use_block (input_json_delta s) l = refl
record_delta-blocks i _ _ l = refl

-- A delta leaves the block ledger alone.
pub delta-blocks :
    (index : Option ℕ) (d : Delta) (l : AnthropicStreamLedger)
    → (delta_block index d l).1.blocks ≡ l.blocks
unfolding delta_block record_block_delta
delta-blocks none d l = refl
delta-blocks (some i) d l = elim (Option-cases (Table.get i l.content_blocks)) [
  | inl e ↦ rw (e, record_block_delta) refl
  | inr (b, e) ↦ rw (e, record_block_delta) (record_delta-blocks i b.block_type d l)
]
