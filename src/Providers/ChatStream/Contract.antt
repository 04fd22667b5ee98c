-- ===== src/Providers/ChatStream/Contract.antt =====
-- What the client gets of a stream meets the contract of core/anthropic/stream_contracts.py.
use mathlib.Core.List.{append_assoc}
use text.Mathlib.TextLemmas.{nil-append, append-nil as str_append-nil}
use free_claude_code_my_pr_i.Core.Streaming.Calls.{
  thinking_content_of-append, text_content_of-append, check_events-append,
}
use free_claude_code_my_pr_i.Core.Streaming.Emit.{
  final_stop_reason, accumulated_reasoning, accumulated_text, yields_if,
}
use free_claude_code_my_pr_i.Providers.ChatStream.Parts.{write_parts-StaysIn}
use free_claude_code_my_pr_i.Providers.ToolCalls.Processing.{StaysIn-Live, StaysIn}
use free_claude_code_my_pr_i.Core.Streaming.Contract.{
  thinking_of, text_of, ends_terminal, check_event, ends_well, Checker, is_finished, check_events,
  thinking_content_of, text_content_of, has_message_start, new_checker, meets_contract,
}
use free_claude_code_my_pr_i.Providers.ChatStream.Whole.{
  ends_terminal-append, finished-well, begun-Live, begun-Marked, new_stream, Completes,
  complete_blocks-Completes,
}
use free_claude_code_my_pr_i.Providers.ChatStream.{
  map_stop_reason, Ending, complete_blocks, end_stream, write_parts, stream_response, Part,
}
use free_claude_code_my_pr_i.Core.Streaming.Ledger.{
  message_stop, or_else, update, message_delta, safe_usage_int, new_ledger, stop_message,
  end_message, start_message, Event, AnthropicStreamLedger,
}
use free_claude_code_my_pr_i.Core.Streaming.Json.{Json}
use free_claude_code_my_pr_i.Providers.ToolCalls.{on_ledger, ToolStream}
use free_claude_code_my_pr_i.Prelude.Dict.{Dict}
use free_claude_code_my_pr_i.Prelude.{
  ℕ, String, ◌≡◌, refl, sym, ap, ◌∙◌, Bool, true, false, ◌&&◌, Option, none, some, List, [], ◌∷◌,
  ◌++◌, arith, join-nil, ◌⊕◌,
}

pub all_true : (a b c : Bool) → a ≡ true → b ≡ true → c ≡ true → (a && b && c) ≡ true
all_true a b c x y z = ground (arith, x, y, z)

pub ends_well_of :
    (o : Option Checker) (c : Checker) → o ≡ some c → is_finished c ≡ true → ends_well o ≡ true
ends_well_of o c e f = ap ends_well e ∙ f

module _ (loads : String → Option Json) (dumps : Json → String) (aliases : Dict (Dict String))
    (estimate : AnthropicStreamLedger → ℕ) (message_id model : String) (input_tokens : Option ℕ)
    (with_aliases shown : Bool) (parts : List Part) where
  abbrev start : ToolStream
  start = new_stream message_id model input_tokens with_aliases

  -- The state after `message_start`, after the parts, and after the blocks are complete.
  abbrev begun : ToolStream
  begun = (on_ledger (yields_if true start_message) start).1

  abbrev written : List Event × ToolStream
  written = write_parts loads dumps aliases shown parts begun

  abbrev complete : List Event × ToolStream
  complete = complete_blocks loads dumps aliases written.1

  written-StaysIn : StaysIn begun new_checker written
  written-StaysIn =
      write_parts-StaysIn loads dumps aliases shown parts begun new_checker
        (begun-Live message_id model input_tokens)

  abbrev Completed : Type 0
  Completed = Completes loads dumps aliases written.1 written-StaysIn.stays.follows.after complete

  complete-Completes : Completed
  unfolding start_message new_ledger
  complete-Completes =
      complete_blocks-Completes loads dumps aliases written.1 written-StaysIn.stays.follows.after
        (StaysIn-Live begun new_checker written written-StaysIn)
        (written-StaysIn.marked (begun-Marked message_id model input_tokens with_aliases))

  after : Checker
  after = complete-Completes.ends.follows.after

  -- The events up to `close_all_blocks`, and then some that the checker passes over.
  checked :
      (es : List Event)
      → check_events false es after ≡ some after
      → check_events false (written.0 ++ (complete.0 ++ es)) new_checker ≡ some after
  unfolding after
  checked es k =
      check_events-append false written.0 (complete.0 ++ es) new_checker
        written-StaysIn.stays.follows.after written-StaysIn.stays.follows.checks
      ∙ check_events-append false complete.0 es written-StaysIn.stays.follows.after
          complete-Completes.ends.follows.after complete-Completes.ends.follows.checks
      ∙ k

  finished_after : is_finished after ≡ true
  unfolding after
  finished_after =
      finished-well complete.1.ledger complete-Completes.ends.follows.after
        complete-Completes.ends.follows.sync complete-Completes.ends.closed complete-Completes.seen

  text_complete :
      accumulated_text complete.1.ledger ≡ text_content_of written.0 ⊕ text_content_of complete.0
  unfolding start_message new_ledger
  text_complete =
      complete-Completes.ends.follows.text
      ∙ ap (λ s. s ⊕ text_content_of complete.0)
          (written-StaysIn.stays.follows.text
            ∙ ap (λ s. s ⊕ text_content_of written.0) join-nil
            ∙ nil-append (text_content_of written.0))

  reasoning_complete :
      accumulated_reasoning complete.1.ledger
      ≡ thinking_content_of written.0 ⊕ thinking_content_of complete.0
  unfolding start_message new_ledger
  reasoning_complete =
      complete-Completes.ends.follows.reasoning
      ∙ ap (λ s. s ⊕ thinking_content_of complete.0)
          (written-StaysIn.stays.follows.reasoning
            ∙ ap (λ s. s ⊕ thinking_content_of written.0) join-nil
            ∙ nil-append (thinking_content_of written.0))

  begun_event : Event
  begun_event = (start_message start.ledger).0

  -- The stream of a response that is read to its end meets the contract: it starts with a message,
  -- every block starts once, gets deltas of its own type while it is open, and is stopped, and there
  -- is at least one.
  pub stream-meets_contract :
      (e : Ending)
      → meets_contract false (stream_response loads dumps aliases estimate shown parts e start).0
        ≡ true
  unfolding begun_event meets_contract stream_response safe_usage_int check_events check_event
      ends_terminal end_stream has_message_start start_message end_message stop_message
  stream-meets_contract e =
      let l : AnthropicStreamLedger = complete.1.ledger in
      let r : List Event × AnthropicStreamLedger = end_stream estimate e l in
      all_true true (ends_terminal false ((begun_event ∷ written.0) ++ (complete.0 ++ r.0)))
        (ends_well
          (check_events false (begun_event ∷ (written.0 ++ (complete.0 ++ r.0))) new_checker))
        refl
        (ap (ends_terminal false) (sym (append_assoc (begun_event ∷ written.0) complete.0 r.0))
          ∙ ends_terminal-append false ((begun_event ∷ written.0) ++ complete.0)
              (message_delta (final_stop_reason (map_stop_reason e.finish_reason) l) (
                update e.usage_fields (
                  ("input_tokens", safe_usage_int (or_else e.prompt_tokens l.input_tokens))
                  ∷ ("output_tokens", elim e.completion_tokens [ none ↦ estimate l | some n ↦ n ])
                  ∷ [])))
              (message_stop ∷ []))
        (ends_well_of
          (check_events false (begun_event ∷ (written.0 ++ (complete.0 ++ r.0))) new_checker) after
          (checked r.0 refl) finished_after)

  -- The texts that the client reads out of the stream are those that the ledger has accumulated.
  pub stream-accumulates :
      (e : Ending)
      → let r = stream_response loads dumps aliases estimate shown parts e start in
        (text_content_of r.0 ≡ accumulated_text r.1.ledger)
        × (thinking_content_of r.0 ≡ accumulated_reasoning r.1.ledger)
  unfolding stream_response end_stream start_message end_message stop_message text_content_of
      thinking_content_of text_of thinking_of
  stream-accumulates e =
      let r : List Event × AnthropicStreamLedger = end_stream estimate e complete.1.ledger in
      (
        nil-append (text_content_of (written.0 ++ (complete.0 ++ r.0)))
            ∙ text_content_of-append written.0 (complete.0 ++ r.0)
            ∙ ap (λ s. text_content_of written.0 ⊕ s)
                (text_content_of-append complete.0 r.0
                  ∙ str_append-nil (text_content_of complete.0))
            ∙ sym text_complete,
        nil-append (thinking_content_of (written.0 ++ (complete.0 ++ r.0)))
            ∙ thinking_content_of-append written.0 (complete.0 ++ r.0)
            ∙ ap (λ s. thinking_content_of written.0 ⊕ s)
                (thinking_content_of-append complete.0 r.0
                  ∙ str_append-nil (thinking_content_of complete.0))
            ∙ sym reasoning_complete,
      )
