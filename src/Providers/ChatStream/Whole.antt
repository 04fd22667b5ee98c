-- ===== src/Providers/ChatStream/Whole.antt =====
-- A whole stream: what the client gets meets the contract of stream_contracts.py.
use free_claude_code_my_pr_i.Core.Streaming.Ending.{close_all-Closes}
use free_claude_code_my_pr_i.Providers.ToolCalls.Tasks.{flush_task_args-Passes}
use free_claude_code_my_pr_i.Providers.ToolCalls.Flushing.{flush_buffers-Passes}
use free_claude_code_my_pr_i.Providers.ChatStream.Calls.{write_text-on}
use free_claude_code_my_pr_i.Core.Streaming.Indexes.{keys}
use free_claude_code_my_pr_i.Core.Streaming.Keeping.{indexes}
use free_claude_code_my_pr_i.Core.Streaming.Calls.{check_events-append, then-Follows}
use free_claude_code_my_pr_i.Core.Streaming.Stack.{no_repeats}
use free_claude_code_my_pr_i.Providers.ChatStream.Parts.{write_space-StaysIn}
use free_claude_code_my_pr_i.Providers.ChatStream.Seen.{
  seen_events, no_space-seen, text-seen, has_seen,
}
use free_claude_code_my_pr_i.Core.Streaming.Follows.{Follows}
use free_claude_code_my_pr_i.Providers.ToolCalls.Processing.{Passes-StaysIn, StaysIn-Live, StaysIn}
use free_claude_code_my_pr_i.Core.Streaming.Live.{Live}
use free_claude_code_my_pr_i.Core.Streaming.Sync.{Sync, open_kind}
use free_claude_code_my_pr_i.Providers.ChatStream.{
  write_space, write_text, needs_space, complete_blocks,
}
use free_claude_code_my_pr_i.Core.Streaming.Contract.{
  is_finished, ends_terminal, new_checker, Checker,
}
use free_claude_code_my_pr_i.Core.Streaming.Json.{Json}
use free_claude_code_my_pr_i.Providers.ToolCalls.Arguments.{Marked}
use free_claude_code_my_pr_i.Core.Streaming.Ledger.{
  AnthropicStreamLedger, member, Event, new_ledger, start_message,
}
use free_claude_code_my_pr_i.Providers.ToolCalls.{
  on_ledger, flush_task_args, flush_tool_argument_alias_buffers, Generates, ToolStream, ◌>>>◌,
}
use free_claude_code_my_pr_i.Core.Streaming.Emit.{close_all_blocks}
use free_claude_code_my_pr_i.Prelude.Dict.{Dict}
use free_claude_code_my_pr_i.Prelude.Table.{Table}
use free_claude_code_my_pr_i.Prelude.Table
use free_claude_code_my_pr_i.Prelude.{
  ℕ, String, ◌≡◌, refl, sym, ◌∙◌, Bool, true, false, Option, none, some, List, [], ◌∷◌, ◌++◌, arith,
  if◌then◌else◌, by_test,
}

-- The state in which a request starts; `with_aliases` says whether arguments can have aliases.
abbrev pub new_stream : String → String → Option ℕ → Bool → ToolStream
new_stream message_id model input_tokens with_aliases = record {
  ledger = new_ledger message_id model input_tokens;
  alias_buffers = if with_aliases then some [] else none;
  recorded = [];
}

pub begun-Live :
    (message_id model : String) (n : Option ℕ)
    → Live (start_message (new_ledger message_id model n)).1 new_checker
unfolding start_message new_ledger open_kind member Table.get no_repeats indexes keys
begun-Live message_id model n = record {
  sync = record {
    same = λ i. refl;
    kept = λ i m. ground (arith, m);
    stack_distinct = refl;
    seen_below = λ i m. ground (arith, m);
    count = refl;
    below = λ i m. ground (arith, m);
    named = λ i b m. ground (arith, m);
    text_active = λ e. ground (arith, e);
    thinking_active = λ e. ground (arith, e);
    text_below = λ i e. ground (arith, e);
    thinking_below = λ i e. ground (arith, e);
  };
  tools = tt;
  once = refl;
  covered = λ i s o. ground (arith, o);
  unique = refl;
}

pub begun-Marked : (m model : String) (n : Option ℕ) (b : Bool) → Marked (new_stream m model n b)
unfolding Table.get
begun-Marked m model n true i at = ground (arith, at)
begun-Marked m model n false i at = ground (arith, at)

pub record Ends (t : ToolStream) (c : Checker) (r : List Event × ToolStream) : Type 0 where
  pub follows : Follows t.ledger c (r.0, r.1.ledger)
  pub closed : (i : ℕ) → open_kind r.1.ledger.open_stack r.1.ledger.content_blocks i ≡ none

then-Ends :
    (t : ToolStream) (c : Checker) (f g : Generates)
    → StaysIn t c (f t)
    → ((c' : Checker) → Live (f t).1.ledger c' → Ends (f t).1 c' (g (f t).1))
    → Ends t c ((f >>> g) t)
then-Ends t c f g h k = record {
  follows =
      then-Follows t.ledger c (λ _. ((f t).0, (f t).1.ledger))
        (λ _. ((g (f t).1).0, (g (f t).1).1.ledger)) h.stays.follows
        (λ c' h'.
          (k c' (record {
            sync = h';
            tools = h.stays.tools;
            once = h.stays.once;
            covered = h.stays.covered;
            unique = h.stays.unique;
          })).follows);
  closed = (k h.stays.follows.after (StaysIn-Live t c (f t) h)).closed;
}

write_space-seen :
    (t : ToolStream) (c : Checker) → Sync (write_space t).1.ledger c → has_seen c ≡ true
write_space-seen t c =
    by_test (λ (r : List Event × ToolStream). Sync r.1.ledger c → has_seen c ≡ true)
      (needs_space t.ledger) _ _
      (λ _ h. text-seen (write_text " " t.ledger).1 c h (write_text-on " " t.ledger))
      (λ e h. no_space-seen t.ledger c h e)

module _ (loads : String → Option Json) (dumps : Json → String) (aliases : Dict (Dict String)) where
  finish-Ends :
      (t : ToolStream) (c : Checker)
      → Live t.ledger c
      → Marked t
      → Ends t c (
          (flush_tool_argument_alias_buffers loads dumps aliases
              >>> flush_task_args loads dumps
              >>> on_ledger close_all_blocks)
            t)
  finish-Ends t c h m =
      let t1 : ToolStream = (flush_tool_argument_alias_buffers loads dumps aliases t).1 in
      let t2 : ToolStream = (flush_task_args loads dumps t1).1 in
      then-Ends t c (flush_tool_argument_alias_buffers loads dumps aliases)
        (flush_task_args loads dumps >>> on_ledger close_all_blocks)
        (Passes-StaysIn t c (flush_tool_argument_alias_buffers loads dumps aliases t)
          (flush_buffers-Passes loads dumps aliases t c h m))
        (λ c1 h1.
          then-Ends t1 c1 (flush_task_args loads dumps) (on_ledger close_all_blocks)
            (Passes-StaysIn t1 c1 (flush_task_args loads dumps t1)
              (flush_task_args-Passes loads dumps t1 c1 h1))
            (λ c2 h2. record {
              follows = (close_all-Closes t2.ledger c2 h2).follows;
              closed = (close_all-Closes t2.ledger c2 h2).closed;
            }))

  pub record Completes (t : ToolStream) (c : Checker) (r : List Event × ToolStream) : Type 0 where
    pub ends : Ends t c r
    pub seen : has_seen ends.follows.after ≡ true

  completed :
      (t : ToolStream) (c : Checker) (r r' : List Event × ToolStream) (sp : StaysIn t c r)
      (ends : Ends t c (r.0 ++ r'.0, r'.1))
      → has_seen sp.stays.follows.after ≡ true
      → Completes t c (r.0 ++ r'.0, r'.1)
  completed t c r r' sp ends seen = record {
    ends = ends;
    seen =
        seen_events false r'.0 sp.stays.follows.after ends.follows.after
          (sym (check_events-append false r.0 r'.0 c sp.stays.follows.after sp.stays.follows.checks)
            ∙ ends.follows.checks)
          seen;
  }

  pub complete_blocks-Completes :
      (t : ToolStream) (c : Checker)
      → Live t.ledger c
      → Marked t
      → Completes t c (complete_blocks loads dumps aliases t)
  unfolding complete_blocks
  complete_blocks-Completes t c h m =
      let t1 : ToolStream = (write_space t).1 in
      let sp : StaysIn t c (write_space t) = write_space-StaysIn t c h in
      let ends : Ends t c (complete_blocks loads dumps aliases t) =
        then-Ends t c write_space
          (flush_tool_argument_alias_buffers loads dumps aliases
            >>> flush_task_args loads dumps
            >>> on_ledger close_all_blocks)
          sp (λ c' h'. finish-Ends t1 c' h' ((write_space-StaysIn t c h).marked m)) in
      completed t c (write_space t)
        ((flush_tool_argument_alias_buffers loads dumps aliases
            >>> flush_task_args loads dumps
            >>> on_ledger close_all_blocks)
          t1)
        (write_space-StaysIn t c h) ends
        (write_space-seen t (write_space-StaysIn t c h).stays.follows.after
          (write_space-StaysIn t c h).stays.follows.sync)

-- What the checker says of a stream whose blocks are all closed.
pub finished-well :
    (l : AnthropicStreamLedger) (c : Checker)
    → Sync l c
    → ((i : ℕ) → open_kind l.open_stack l.content_blocks i ≡ none)
    → has_seen c ≡ true
    → is_finished c ≡ true
finished-well l c h closed seen =
    let e : c.open_blocks ≡ [] = Table.get-none-empty c.open_blocks (λ i. h.same i ∙ closed i) in
    ground (arith, e, seen)

pub ends_terminal-append :
    (b : Bool) (xs : List Event) (e : Event) (es : List Event)
    → ends_terminal b (xs ++ e ∷ es) ≡ ends_terminal b (e ∷ es)
unfolding ends_terminal
ends_terminal-append b [] e es = refl
ends_terminal-append b (x ∷ []) e es = refl
ends_terminal-append b (x ∷ y ∷ xs) e es = ends_terminal-append b (y ∷ xs) e es
