-- ===== src/Core/Streaming/Live.antt =====
-- The invariant of a stream with tool calls: each started tool call has its own open block.
use free_claude_code_my_pr_i.Core.Streaming.Indexes.{keys, member-add_index}
use free_claude_code_my_pr_i.Core.Streaming.Writing.{Writes}
use free_claude_code_my_pr_i.Core.Streaming.Emit.{◌>>◌, finished}
use free_claude_code_my_pr_i.Core.Streaming.Calls.{then-Follows, finished-Follows, moved}
use free_claude_code_my_pr_i.Core.Streaming.Follows.{Follows}
use free_claude_code_my_pr_i.Core.Streaming.Sync.{Sync}
use free_claude_code_my_pr_i.Core.Streaming.Contract.{Checker}
use free_claude_code_my_pr_i.Core.Streaming.Stack.{no_repeats}
use free_claude_code_my_pr_i.Core.Streaming.Keeping.{Covered, indexes, IsOpenAt}
use free_claude_code_my_pr_i.Core.Streaming.Block.{ToolBlockState}
use free_claude_code_my_pr_i.Core.Streaming.Ledger.{Yields, Event, member, AnthropicStreamLedger}
use free_claude_code_my_pr_i.Prelude.Table.{Table}
use free_claude_code_my_pr_i.Prelude.Table
use free_claude_code_my_pr_i.Prelude.{
  ℕ, ◌≡◌, refl, sym, ap, subst, ◌∙◌, inl, inr, true, false, some, List, [], ◌∷◌, arith, ◌==◌,
  Bool-cases, All, All-map,
}

-- A started tool call has an open block, and no other one buffers arguments of a Task.
pub record IsOpenTool (l : AnthropicStreamLedger) (s : ToolBlockState) : Type 0 where
  pub block : s.started ≡ true → (i : ℕ) × (s.block_index ≡ some i) × IsOpenAt l i
  pub waits : s.started ≡ false → s.task_arg_buffer ≡ ""

abbrev pub AllOpen : AnthropicStreamLedger → Table ToolBlockState → Type 0
AllOpen l = All (λ e. IsOpenTool l e.1)

pub record Live (l : AnthropicStreamLedger) (c : Checker) : Type 0 where
  pub sync : Sync l c
  pub tools : AllOpen l l.blocks.tool_states
  pub once : no_repeats (indexes l.blocks.tool_states) ≡ true
  pub covered : Covered l
  pub unique : no_repeats (keys l.blocks.tool_states) ≡ true

pub record Stays (l : AnthropicStreamLedger) (c : Checker) (r : List Event × AnthropicStreamLedger)
    : Type 0 where
  pub follows : Follows l c r
  pub tools : AllOpen r.1 r.1.blocks.tool_states
  pub once : no_repeats (indexes r.1.blocks.tool_states) ≡ true
  pub covered : Covered r.1
  pub unique : no_repeats (keys r.1.blocks.tool_states) ≡ true

pub IsOpenTool-map :
    (l l' : AnthropicStreamLedger) (s : ToolBlockState)
    → ((i : ℕ) → IsOpenAt l i → IsOpenAt l' i)
    → IsOpenTool l s
    → IsOpenTool l' s
IsOpenTool-map l l' s k h = record {
  block = λ on. ((h.block on).0, (h.block on).1, k (h.block on).0 (h.block on).2);
  waits = h.waits;
}

pub AllOpen-map :
    (l l' : AnthropicStreamLedger) (t : Table ToolBlockState)
    → ((i : ℕ) → IsOpenAt l i → IsOpenAt l' i)
    → AllOpen l t
    → AllOpen l' t
AllOpen-map l l' t k =
    All-map (λ e. IsOpenTool l e.1) (λ e. IsOpenTool l' e.1) t (λ e. IsOpenTool-map l l' e.1 k)

pub AllOpen-get :
    (l : AnthropicStreamLedger) (k : ℕ) (s : ToolBlockState) (t : Table ToolBlockState)
    → AllOpen l t
    → Table.get k t ≡ some s
    → IsOpenTool l s
unfolding Table.get
AllOpen-get l k s [] h e = ground (arith, e)
AllOpen-get l k s ((j, s') ∷ t) h e = elim (Bool-cases (j == k)) [
  | inl q ↦ subst (IsOpenTool l) (ground (arith, q, e)) h.0
  | inr q ↦ AllOpen-get l k s t h.1 (ground (arith, q, e))
]

pub AllOpen-put :
    (l : AnthropicStreamLedger) (k : ℕ) (s : ToolBlockState) (t : Table ToolBlockState)
    → AllOpen l t
    → IsOpenTool l s
    → AllOpen l (Table.put k s t)
unfolding Table.put
AllOpen-put l k s [] h o = (o, tt)
AllOpen-put l k s ((j, s') ∷ t) h o = elim (Bool-cases (j == k)) [
  | inl q ↦ rw (q, Table.put) (o, h.1)
  | inr q ↦ rw (q, Table.put) (h.0, AllOpen-put l k s t h.1 o)
]

pub AllOpen-modify :
    (l : AnthropicStreamLedger) (k : ℕ) (f : ToolBlockState → ToolBlockState)
    (t : Table ToolBlockState)
    → ((s : ToolBlockState) → Table.get k t ≡ some s → IsOpenTool l s → IsOpenTool l (f s))
    → AllOpen l t
    → AllOpen l (Table.modify k f t)
unfolding Table.modify Table.get
AllOpen-modify l k f [] keeps h = tt
AllOpen-modify l k f ((j, s) ∷ t) keeps h = elim (Bool-cases (j == k)) [
  | inl q ↦ rw (q, Table.modify) (keeps s (rw (q, Table.get) refl) h.0, h.1)
  | inr q ↦
      rw (q, Table.modify)
        (h.0, AllOpen-modify l k f t (λ s' e. keeps s' (rw (q, Table.get) e)) h.1)
]

-- Every index of the list is that of an open block.
pub indexes-open :
    (l : AnthropicStreamLedger) (i : ℕ) (t : Table ToolBlockState)
    → AllOpen l t
    → member i (indexes t) ≡ true
    → IsOpenAt l i
unfolding indexes member
indexes-open l i [] h m = ground (arith, m)
indexes-open l i ((_, s) ∷ t) h m = elim (Bool-cases s.started) [
  | inl on ↦
      let (j, e, o) = h.0.block on in
      elim (Bool-cases (j == i)) [
        | inl q ↦ subst (IsOpenAt l) (ground (arith, q)) o
        | inr q ↦
            indexes-open l i t h.1
              (ground (arith, q, e, m, member-add_index i s.started s.block_index (indexes t)))
      ]
  | inr off ↦
      indexes-open l i t h.1
        (ground (arith, off, m, member-add_index i s.started s.block_index (indexes t)))
]

pub Stays-Live :
    (l : AnthropicStreamLedger) (c : Checker) (r : List Event × AnthropicStreamLedger)
    (h : Stays l c r)
    → Live r.1 h.follows.after
Stays-Live l c r h = record {
  sync = h.follows.sync;
  tools = h.tools;
  once = h.once;
  covered = h.covered;
  unique = h.unique;
}

pub finished-Stays : (l : AnthropicStreamLedger) (c : Checker) → Live l c → Stays l c (finished l)
finished-Stays l c h = record {
  follows = finished-Follows l c h.sync;
  tools = h.tools;
  once = h.once;
  covered = h.covered;
  unique = h.unique;
}

pub then-Stays :
    (l : AnthropicStreamLedger) (c : Checker) (f g : Yields)
    → Stays l c (f l)
    → ((c' : Checker) → Live (f l).1 c' → Stays (f l).1 c' (g (f l).1))
    → Stays l c ((f >> g) l)
then-Stays l c f g h k = record {
  follows = then-Follows l c f g h.follows (λ c' h'.
      (k c' (record {
        sync = h';
        tools = h.tools;
        once = h.once;
        covered = h.covered;
        unique = h.unique;
      })).follows);
  tools = (k h.follows.after (Stays-Live l c (f l) h)).tools;
  once = (k h.follows.after (Stays-Live l c (f l) h)).once;
  covered = (k h.follows.after (Stays-Live l c (f l) h)).covered;
  unique = (k h.follows.after (Stays-Live l c (f l) h)).unique;
}

pub moved-Stays :
    (l l' : AnthropicStreamLedger) (c : Checker) (r : List Event × AnthropicStreamLedger)
    → l.text_parts ≡ l'.text_parts
    → l.thinking_parts ≡ l'.thinking_parts
    → Stays l' c r
    → Stays l c r
moved-Stays l l' c r e k h = record {
  follows = moved l l' c r e k h.follows;
  tools = h.tools;
  once = h.once;
  covered = h.covered;
  unique = h.unique;
}

pub Writes-Stays :
    (l : AnthropicStreamLedger) (c : Checker) (r : List Event × AnthropicStreamLedger)
    → Live l c
    → Writes l c r
    → Stays l c r
Writes-Stays l c r h w = record {
  follows = w.follows;
  tools =
      subst (AllOpen r.1) (sym w.keeps.states)
        (AllOpen-map l r.1 l.blocks.tool_states w.keeps.opened h.tools);
  once = ap (λ t. no_repeats (indexes t)) w.keeps.states ∙ h.once;
  covered = w.keeps.covers h.covered;
  unique = ap (λ t. no_repeats (keys t)) w.keeps.states ∙ h.unique;
}
