-- ===== src/Core/Streaming/Ending.antt =====
-- The end of a stream: `close_all_blocks` leaves no block open.
use free_claude_code_my_pr_i.Core.Streaming.Writing.{close_content-Writes, Writes}
use free_claude_code_my_pr_i.Core.Streaming.Emitting.{stop-Follows}
use free_claude_code_my_pr_i.Core.Streaming.Stopping.{cleared-Clears}
use free_claude_code_my_pr_i.Core.Streaming.Calls.{then-Follows, one, finished-Follows}
use free_claude_code_my_pr_i.Core.Streaming.Indexes.{member-add_index}
use free_claude_code_my_pr_i.Core.Streaming.Stack.{no_repeats}
use free_claude_code_my_pr_i.Core.Streaming.Live.{Writes-Stays, Stays, IsOpenTool, Live, AllOpen}
use free_claude_code_my_pr_i.Core.Streaming.Follows.{Follows}
use free_claude_code_my_pr_i.Core.Streaming.Sync.{open_kind, Sync}
use free_claude_code_my_pr_i.Core.Streaming.Contract.{Storage, Checker}
use free_claude_code_my_pr_i.Core.Streaming.Block.{tool_use_block, ToolBlockState}
use free_claude_code_my_pr_i.Core.Streaming.Emit.{
  yields_if, ◌>>◌, stop_thinking_block, stop_text_block, close_all_blocks, stop_of,
  close_content_blocks, stop_block, stop_tools,
}
use free_claude_code_my_pr_i.Core.Streaming.Keeping.{
  stop-before, stop-others, add_index, IsOpenAt, indexes,
}
use free_claude_code_my_pr_i.Core.Streaming.Ledger.{
  close_state, record_block_stop, Event, member, AnthropicStreamLedger,
}
use free_claude_code_my_pr_i.Prelude.Table.{Table}
use free_claude_code_my_pr_i.Prelude.Table
use free_claude_code_my_pr_i.Prelude.{
  ℕ, ◌≡◌, refl, sym, subst, ◌∙◌, inl, inr, Bool, true, false, Option, none, some, List, [], ◌∷◌,
  arith, ◌==◌, Option-cases,
}

pub record Closes (l : AnthropicStreamLedger) (c : Checker) (r : List Event × AnthropicStreamLedger)
    : Type 0 where
  pub follows : Follows l c r
  pub closed : (i : ℕ) → open_kind r.1.open_stack r.1.content_blocks i ≡ none

-- The states keep their open blocks when another block is stopped.
AllOpen-others :
    (l l' : AnthropicStreamLedger) (i : ℕ) (t : Table ToolBlockState)
    → member i (indexes t) ≡ false
    → ((j : ℕ) → (i == j) ≡ false → IsOpenAt l j → IsOpenAt l' j)
    → AllOpen l t
    → AllOpen l' t
unfolding indexes
AllOpen-others l l' i [] m k h = tt
AllOpen-others l l' i ((n, s) ∷ t) m k h = (
  record {
    block = λ on.
        let (j, e, o) = h.0.block on in
        (
          j,
          e,
          k j (ground (arith, m, on, e, member-add_index i s.started s.block_index (indexes t))) o,
        );
    waits = h.0.waits;
  },
  AllOpen-others l l' i t
      (ground (arith, m, member-add_index i s.started s.block_index (indexes t))) k h.1,
)

-- Every open block is in a list.
abbrev Within : AnthropicStreamLedger → List ℕ → Type 0
Within l is =
    (i : ℕ) (s : Storage) → open_kind l.open_stack l.content_blocks i ≡ some s → member i is ≡ true

-- The tool calls of a list can be stopped from every ledger in which they are what is open.
abbrev CanClose : Table ToolBlockState → Type 0
CanClose states =
    (l : AnthropicStreamLedger) (c : Checker)
    → Sync l c
    → AllOpen l states
    → no_repeats (indexes states) ≡ true
    → Within l (indexes states)
    → Closes l c (stop_tools states l)

module _ (s : ToolBlockState) (states : Table ToolBlockState) (rest : CanClose states)
    (l : AnthropicStreamLedger) (c : Checker) (h : Sync l c) (tools : AllOpen l states) where
  stop_one-Closes :
      (i : ℕ)
      → IsOpenAt l i
      → no_repeats (i ∷ indexes states) ≡ true
      → Within l (i ∷ indexes states)
      → Closes l c (((λ l. one (stop_block (some i) l)) >> stop_tools states) l)
  unfolding stop_block no_repeats member
  stop_one-Closes i o once only =
      let l' : AnthropicStreamLedger = (stop_block (some i) l).1 in
      let tools' : AllOpen l' states =
        AllOpen-others l l' i states (ground (arith, once)) (stop-others l c h i tool_use_block o)
          tools in
      let only' : Within l' (indexes states) = λ j s'. λ p.
        let q : open_kind l.open_stack l.content_blocks j ≡ some s' × ((i == j) ≡ false) =
          stop-before l c h i tool_use_block o j s' p in
        ground (arith, q.1, only j s' q.0) in
      record {
        follows =
            then-Follows l c (λ l. one (stop_block (some i) l)) (stop_tools states)
              (stop-Follows l c h i tool_use_block o)
              (λ c' h'. (rest l' c' h' tools' (ground (arith, once)) only').follows);
        closed =
            (rest l' (stop-Follows l c h i tool_use_block o).after
              (stop-Follows l c h i tool_use_block o).sync tools' (ground (arith, once))
              only').closed;
      }

  stop_first-Closes :
      (b : Bool)
      → s.started ≡ b
      → IsOpenTool l s
      → no_repeats (add_index b s.block_index (indexes states)) ≡ true
      → Within l (add_index b s.block_index (indexes states))
      → Closes l c ((yields_if b (stop_of s) >> stop_tools states) l)
  unfolding stop_of
  stop_first-Closes false e o once only = rest l c h tools once only
  stop_first-Closes true e o once only =
      let (i, at, p) = o.block e in
      subst (λ x. Closes l c (((λ l. one (stop_block x l)) >> stop_tools states) l)) (sym at)
        (stop_one-Closes i p
          (subst (λ x. no_repeats (add_index true x (indexes states)) ≡ true) at once)
          (subst (λ x. Within l (add_index true x (indexes states))) at only))

pub stop_tools-Closes : (states : Table ToolBlockState) → CanClose states
unfolding stop_tools indexes member
stop_tools-Closes [] l c h tools once only = record {
  follows = finished-Follows l c h;
  closed = λ i. elim (Option-cases (open_kind l.open_stack l.content_blocks i)) [
    | inl e ↦ e
    | inr (s, e) ↦ ground (arith, only i s e)
  ];
}
stop_tools-Closes ((k, s) ∷ states) l c h tools once only =
    stop_first-Closes s states (stop_tools-Closes states) l c h tools.1 s.started refl tools.0 once
      only

stops_off :
    (index : Option ℕ) (l : AnthropicStreamLedger)
    → ((record_block_stop index l).blocks.text_started ≡ true → l.blocks.text_started ≡ true)
      × ((record_block_stop index l).blocks.thinking_started ≡ true
          → l.blocks.thinking_started ≡ true)
unfolding record_block_stop close_state
stops_off none l = (λ e. e, λ e. e)
stops_off (some i) l = elim (Option-cases (Table.get i l.content_blocks)) [
  | inl e ↦ rw (e, close_state) (λ x. x, λ x. x)
  | inr (b, e) ↦
      rw (e, close_state)
        (
          λ x. ((cleared-Clears b.block_type b.index l.blocks).text_stays x).0,
          λ x. ((cleared-Clears b.block_type b.index l.blocks).thinking_stays x).0,
        )
]

off_unless : (b : Bool) → (b ≡ true → false ≡ true) → b ≡ false
off_unless true h = sym (h refl)
off_unless false h = refl

thinking_off :
    (b : Bool) (l : AnthropicStreamLedger)
    → l.blocks.thinking_started ≡ b
    → (yields_if b stop_thinking_block l).1.blocks.thinking_started ≡ false
unfolding stop_thinking_block stop_block
thinking_off false l e = e
thinking_off true l e =
    let l' : AnthropicStreamLedger = record l {
      blocks = record l.blocks { thinking_started = false };
    } in
    off_unless (record_block_stop l.blocks.thinking_index l').blocks.thinking_started
      (stops_off l.blocks.thinking_index l').1

text_off :
    (b : Bool) (l : AnthropicStreamLedger)
    → l.blocks.text_started ≡ b
    → l.blocks.thinking_started ≡ false
    → ((yields_if b stop_text_block l).1.blocks.text_started ≡ false)
      × ((yields_if b stop_text_block l).1.blocks.thinking_started ≡ false)
unfolding stop_text_block stop_block
text_off false l e t = (e, t)
text_off true l e t =
    let l' : AnthropicStreamLedger = record l {
      blocks = record l.blocks { text_started = false };
    } in
    (
      off_unless (record_block_stop l.blocks.text_index l').blocks.text_started
          (stops_off l.blocks.text_index l').0,
      off_unless (record_block_stop l.blocks.text_index l').blocks.thinking_started
          (λ x. sym t ∙ (stops_off l.blocks.text_index l').1 x),
    )

-- After `close_content_blocks` neither text nor thinking is being written.
pub close_content-off :
    (l : AnthropicStreamLedger)
    → ((close_content_blocks l).1.blocks.text_started ≡ false)
      × ((close_content_blocks l).1.blocks.thinking_started ≡ false)
unfolding close_content_blocks
close_content-off l =
    let l1 : AnthropicStreamLedger =
      (yields_if l.blocks.thinking_started stop_thinking_block l).1 in
    text_off l1.blocks.text_started l1 refl (thinking_off l.blocks.thinking_started l refl)

pub close_all-Closes :
    (l : AnthropicStreamLedger) (c : Checker) → Live l c → Closes l c (close_all_blocks l)
unfolding close_all_blocks
close_all-Closes l c h =
    ended (close_content-Writes l c h.sync)
      (Writes-Stays l c (close_content_blocks l) h (close_content-Writes l c h.sync))
  where
    ended :
        Writes l c (close_content_blocks l)
        → Stays l c (close_content_blocks l)
        → Closes l c ((close_content_blocks >> (λ l. stop_tools l.blocks.tool_states l)) l)
    ended w k =
        let l1 : AnthropicStreamLedger = (close_content_blocks l).1 in
        let within : Within l1 (indexes l1.blocks.tool_states) = λ i s o. elim (k.covered i s o) [
          | inl x ↦ ground (arith, x.0, (close_content-off l).0)
          | inr y ↦ elim y [ inl x ↦ ground (arith, x.0, (close_content-off l).1) | inr m ↦ m ]
        ] in
        record {
          follows =
              then-Follows l c close_content_blocks (λ l. stop_tools l.blocks.tool_states l)
                k.follows
                (λ c' h'.
                  (stop_tools-Closes l1.blocks.tool_states l1 c' h' k.tools k.once within).follows);
          closed =
              (stop_tools-Closes l1.blocks.tool_states l1 k.follows.after k.follows.sync k.tools
                k.once within).closed;
        }
